-- ===== src/Runtime/Tests.antt =====
-- The runtimes under runtimes/, as `new` makes them.
use tensorgrid.Base.{ℕ, ◌≡◌, refl, String, false, some, [], ◌∷◌, ok, err}
use tensorgrid.Types.{RuntimeBackend, TensorSpec}
use tensorgrid.Runtime.Cpu
use tensorgrid.Runtime.Ggml
use tensorgrid.Runtime.Cuda
use tensorgrid.Runtime.Rocm
use tensorgrid.Runtime.Mlx
use tensorgrid.Runtime.Contract.{IsRuntime, cpu, ggml, cuda, rocm, mlx, all-IsRuntime}

abbrev show : ℕ → String
show n = "0"

abbrev opened : Cuda.CudaRuntime
opened = record { backend = RuntimeBackend.cuda; device = some 0; device_id = 0 }

abbrev absent : Rocm.RocmRuntime
absent = record { backend = RuntimeBackend.rocm; device_available = false; device_id = 0 }

abbrev apple : Mlx.MlxRuntime
apple = record { backend = RuntimeBackend.mlx; device_available = false }

all-IsRuntime_example :
    IsRuntime (cpu show Cpu.new)
    × IsRuntime (ggml show Ggml.new)
    × IsRuntime (cuda show opened)
    × IsRuntime (rocm show absent)
    × IsRuntime (mlx show apple)
all-IsRuntime_example = all-IsRuntime show Cpu.new Ggml.new opened absent apple

abbrev tensor : TensorSpec
tensor = record { tensor_id = "t"; shape = 2 ∷ []; dtype = "f32"; bytes = 8 }

-- A ROCm or an MLX device is never available: nothing can be allocated on one.
rocm_absent : Rocm.new 0 ≡ ok absent
rocm_absent = refl

rocm_refuses : Rocm.allocate_tensor show tensor absent ≡ err Rocm.device_not_available
rocm_refuses = refl

mlx_refuses : Mlx.allocate_tensor show tensor apple ≡ err Mlx.device_not_available
mlx_refuses = refl

cpu_allocates :
    Cpu.allocate_tensor show tensor Cpu.new
    ≡ ok (record { tensor_id = "t"; device = "cpu:0"; offset = 0; size = 8 })
cpu_allocates = refl
