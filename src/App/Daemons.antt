-- ===== src/App/Daemons.antt =====
-- `HttpImplement::startMHDDaemon` of lib/src/http.cc: the daemons that it starts and stops.
use cppmhd.Prelude.{
  ℕ, zero, suc, ◌^◌, ◌≤◌, ◌<◌, ◌≡◌, refl, ◌==◌, inl, inr, Bool, true, false, List, [], ◌∷◌, ◌++◌,
  ltb, if◌then◌else◌, arith, Bool-cases, ap, ap₂, sym,
}
use Prim.Native.Nat.{◌*◌, ◌%◌}
use mathlib.Core.List.{append-nil, append_assoc}
use cppmhd.Core.{CppmhdError, cppmhd_ok, cppmhd_listen_failed}

-- `n << k` on a `uint32_t`.
abbrev pub shift_left : ℕ → ℕ → ℕ
shift_left n k = (n * 2 ^ k) % 2 ^ 32

-- The threads that are used of those that are asked for.
unfoldable pub thread_count : ℕ → ℕ → ℕ
thread_count nproc tc = if ltb (shift_left nproc 3) tc then shift_left nproc 2 else tc

-- The loop over `MHD_start_daemon`, which `starts` says to succeed for the i-th daemon or not; the
-- vector `daemons` holds the numbers of those that run.
unfoldable pub open_daemons : (ℕ → Bool) → ℕ → ℕ → List ℕ → Bool × List ℕ
open_daemons starts zero i daemons = (true, daemons)
open_daemons starts (suc n) i daemons = elim (starts i) [
  | true ↦ open_daemons starts n (suc i) (daemons ++ i ∷ [])
  | false ↦ (false, daemons)
]

-- What a call of `startMHDDaemon` has done when it returns: whether it called back and waited to be
-- stopped, the daemons it started, and those it stopped.
pub record Served : Type 0 where
  pub result : CppmhdError
  pub called : Bool
  pub started : List ℕ
  pub stopped : List ℕ

-- The daemons of the vector are stopped one by one.
unfoldable pub stop_daemons : List ℕ → List ℕ
stop_daemons [] = []
stop_daemons (d ∷ ds) = d ∷ stop_daemons ds

-- `startMHDDaemon`, up to its return; the barrier that it waits for is `App.Barrier`.
unfoldable pub start_mhd_daemon : (ℕ → Bool) → ℕ → ℕ → Served
unfolding open_daemons stop_daemons thread_count
start_mhd_daemon starts nproc tc =
    let (ok, daemons) = open_daemons starts (thread_count nproc tc) 0 [] in
    record {
      result = if ok then cppmhd_ok else cppmhd_listen_failed;
      called = ok;
      started = daemons;
      stopped = stop_daemons daemons;
    }

-- The numbers from `i`, `n` of them.
abbrev pub numbers : ℕ → ℕ → List ℕ
numbers i zero = []
numbers i (suc n) = i ∷ numbers (suc i) n

-- The daemons up to the first that does not start.
unfoldable pub running : (ℕ → Bool) → ℕ → ℕ → ℕ
running starts i zero = 0
running starts i (suc n) = elim (starts i) [ true ↦ suc (running starts (suc i) n) | false ↦ 0 ]

same_suc : (k n : ℕ) → (k == n) ≡ (suc k == suc n)
same_suc k n = ground arith

open_daemons-running :
    (starts : ℕ → Bool) (n i : ℕ) (ds : List ℕ)
    → open_daemons starts n i ds ≡ (running starts i n == n, ds ++ numbers i (running starts i n))
unfolding open_daemons running
open_daemons-running starts zero i ds = ap (λ v. (true, v)) (sym (append-nil ds))
open_daemons-running starts (suc n) i ds = elim (Bool-cases (starts i)) [
  | inl e ↦
      let k = running starts (suc i) n in
      rw (open_daemons, running, e, open_daemons-running starts n (suc i) (ds ++ i ∷ []))
        (ap₂ (λ b v. (b, v)) (same_suc k n) (append_assoc ds (i ∷ []) (numbers (suc i) k)))
  | inr e ↦ rw (open_daemons, running, e) (ap₂ (λ b v. (b, v)) (ground arith) (sym (append-nil ds)))
]

stop_daemons-same : (ds : List ℕ) → stop_daemons ds ≡ ds
unfolding stop_daemons
stop_daemons-same [] = refl
stop_daemons-same (d ∷ ds) = ap (◌∷◌ d) (stop_daemons-same ds)

-- When `startMHDDaemon` returns, the daemons that it started are the first ones up to one that fails,
-- or to the number of threads, and each of them is stopped once. It called back, and returns
-- CPPMHD_OK, exactly if all of them started, and CPPMHD_LISTEN_FAILED otherwise.
pub start_mhd_daemon_lem :
    (starts : ℕ → Bool) (nproc tc : ℕ)
    → let n = thread_count nproc tc in
      let k = running starts 0 n in
      start_mhd_daemon starts nproc tc ≡ record {
        result = if k == n then cppmhd_ok else cppmhd_listen_failed;
        called = k == n;
        started = numbers 0 k;
        stopped = numbers 0 k;
      }
unfolding start_mhd_daemon
start_mhd_daemon_lem starts nproc tc =
    let n = thread_count nproc tc in
    let k = running starts 0 n in
    rw (start_mhd_daemon, open_daemons-running starts n 0 [], stop_daemons-same (numbers 0 k))

-- However many threads are asked for, at most eight for each processor are used, if eight times the
-- number of processors is no overflow.
pub thread_count-bound : (nproc tc : ℕ) → nproc * 8 < 2 ^ 32 → thread_count nproc tc ≤ nproc * 8
unfolding thread_count
thread_count-bound nproc tc h =
    let same : nproc * 8 % 2 ^ 32 ≡ nproc * 8 = omega arith in
    let less : nproc * 4 % 2 ^ 32 ≡ nproc * 4 = omega arith in ground (arith, same, less)
