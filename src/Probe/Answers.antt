-- ===== src/Probe/Answers.antt =====
-- crates/hardware-probe/src/lib.rs: what holds of the answers of the probe.
use tensorgrid.Base.{
  inr, inl, Bool-cases, true, ℕ, suc, ◌≤◌, ◌<◌, ◌^◌, ◌≡◌, ap, refl, String, List, [], ◌∷◌, map,
  length, All, arith, sum, sum_u64-eq-sum, Result, ok,
}
use tensorgrid.HashMap.{HashMap}
use tensorgrid.Probe.{
  System, Disk, Target, probe_storage, probe_wmi_gpus, gpus_from, is_nvidia, probe_gpus,
}

-- A disk has no more space free than it has.
abbrev pub IsSound : Disk → Type 0
IsSound d = d.available_space ≤ d.total_space

available_le :
    (ds : List Disk)
    → All IsSound ds
    → sum (map (λ d. d.available_space) ds) ≤ sum (map (λ d. d.total_space) ds)
unfolding sum
available_le [] h = omega arith
available_le (d ∷ ds) h = omega (arith, h.0, available_le ds h.1)

-- Where no disk has more space free than it has, and the disks' sizes have a sum below 2^64, the storage
-- that is reported is the sum of the sizes, and no more of it is available than there is.
pub probe_storage_sound :
    (sys : System)
    → All IsSound sys.disks
    → sum (map (λ d. d.total_space) sys.disks) < 2 ^ 64
    → ((probe_storage sys).total_bytes ≡ sum (map (λ d. d.total_space) sys.disks))
      × ((probe_storage sys).available_bytes ≤ (probe_storage sys).total_bytes)
probe_storage_sound sys sound fits =
    let le = available_le sys.disks sound in
    let total = sum_u64-eq-sum 0 (map (λ d. d.total_space) sys.disks) (omega (arith, fits)) in
    let available =
      sum_u64-eq-sum 0 (map (λ d. d.available_space) sys.disks) (omega (arith, le, fits)) in
    (omega (arith, total), omega (arith, le, total, available))

length-gpus_from :
    (print : ℕ → String) (i : ℕ) (rows : List (HashMap String String))
    → length (gpus_from print i rows) ≡ length rows
unfolding gpus_from
length-gpus_from print i [] = refl
length-gpus_from print i (row ∷ rows) = ap suc (length-gpus_from print (suc i) rows)

gpus_from-nvml :
    (print : ℕ → String) (i : ℕ) (rows : List (HashMap String String))
    → All (λ g. g.supports_nvml ≡ is_nvidia g.vendor) (gpus_from print i rows)
unfolding gpus_from
gpus_from-nvml print i [] = tt
gpus_from-nvml print i (row ∷ rows) = (refl, gpus_from-nvml print (suc i) rows)

-- On Windows, an answer of WMI gives one GPU for each of its rows, and those with NVML are the ones
-- whose vendor is NVIDIA.
pub probe_gpus-windows :
    {E : Type 0} (print : ℕ → String) (target : Target)
    (answer : Result E (List (HashMap String String))) (rows : List (HashMap String String))
    → target.windows ≡ true
    → answer ≡ ok rows
    → (length (probe_gpus print target answer) ≡ length rows)
      × All (λ g. g.supports_nvml ≡ is_nvidia g.vendor) (probe_gpus print target answer)
unfolding probe_gpus probe_wmi_gpus
probe_gpus-windows print target answer rows windows answered =
    elim (Bool-cases target.nvidia_feature) [
      | inl on ↦
          rw (windows, on, answered) (length-gpus_from print 0 rows, gpus_from-nvml print 0 rows)
      | inr off ↦
          rw (windows, off, answered) (length-gpus_from print 0 rows, gpus_from-nvml print 0 rows)
    ]
