-- ===== src/App/Barrier.antt =====
-- The class `Barrier` of lib/src/utils.h, on which `HttpImplement::stop` of lib/src/http.cc wakes the
-- thread that serves.
use cppmhd.Prelude.{
  Bool, true, false, Option, none, some, ℕ, zero, suc, ◌+◌, ◌-◌, ◌^◌, ◌≤◌, ◌<◌, ◌≡◌, refl, ◌==◌,
  leb, ◌∙◌, ◌⊎◌, inl, if◌then◌else◌, arith,
}

-- `number_` and `total_`, with the calls of `wait`: the threads that have come, those that wait on the
-- condition variable, those that have been notified and are to test the condition again, and those
-- that have left.
pub record Barrier : Type 0 where
  pub number : ℕ
  pub total : ℕ
  pub entered : ℕ
  pub blocked : ℕ
  pub notified : ℕ
  pub left : ℕ

-- `Barrier(n)`
abbrev pub new_barrier : ℕ → Barrier
new_barrier n = record { number = n; total = n; entered = 0; blocked = 0; notified = 0; left = 0 }

-- `number_--` on a `uint32_t`.
abbrev pub decrement : ℕ → ℕ
decrement zero = 2 ^ 32 - 1
decrement (suc n) = n

-- `cv_.notify_all()`
unfoldable pub notify_all : Barrier → Barrier
notify_all b = record b { blocked = 0; notified = b.blocked + b.notified }

-- A thread for which the condition holds notifies the others and leaves.
abbrev passed : Barrier → Barrier
passed b = let b' = notify_all b in record b' { left = suc b'.left }

-- A thread calls `wait`, up to the first test of the condition.
unfoldable pub enter : Barrier → Barrier
unfolding notify_all
enter b =
    if leb b.number b.total
    then (let n = decrement b.number in
        if n == 0
        then passed (record b { number = n; entered = suc b.entered })
        else record b { number = n; entered = suc b.entered; blocked = suc b.blocked })
    else record b { entered = suc b.entered; left = suc b.left }

-- A thread that has been notified tests the condition again.
unfoldable pub wake : Barrier → Barrier
unfolding notify_all
wake b = elim b.notified [
  | zero ↦ b
  | suc k ↦
      if b.number == 0
      then passed (record b { notified = k })
      else record b { notified = k; blocked = suc b.blocked }
]

-- A thread that waits may be woken without a call of `notify_all`.
unfoldable pub spurious : Barrier → Barrier
spurious b = elim b.blocked [
  | zero ↦ b
  | suc k ↦ record b { blocked = k; notified = suc b.notified }
]

-- `HttpImplement::stop`, which only a running server heeds, and `App::isRunning`, where `none` is a
-- null `http_`.
unfoldable pub stop : Bool → Barrier → Barrier
unfolding enter
stop running b = if running then enter b else b

abbrev pub is_running : Option Bool → Bool
is_running none = false
is_running (some running) = running

-- `App::stop`; `http_` and its barrier are those of the application.
unfoldable pub stop_app : Option Bool → Barrier → Barrier
unfolding stop
stop_app none b = b
stop_app (some running) b = if is_running (some running) then stop running b else b

-- The states that some threads bring a barrier to.
pub data Reached (n : ℕ) : Barrier → Type 0 where
  start : Reached n (new_barrier n)
  enters : (b : Barrier) → Reached n b → Reached n (enter b)
  wakes : (b : Barrier) → Reached n b → Reached n (wake b)
  rouses : (b : Barrier) → Reached n b → Reached n (spurious b)

-- While no more threads have come than the barrier is for.
record Holds (n : ℕ) (b : Barrier) : Type 0 where
  counted : b.number + b.entered ≡ n
  same : b.total ≡ n
  threads : b.blocked + b.notified + b.left ≡ b.entered
  shut : b.left ≡ 0 ⊎ b.number ≡ 0
  told : b.number ≡ 0 → b.blocked ≡ 0

enter-Holds : (n : ℕ) (b : Barrier) → Holds n b → b.entered < n → Holds n (enter b)
unfolding enter notify_all
enter-Holds n b h lt = record {
  counted = ground (arith, h.counted, h.same, h.threads);
  same = ground (arith, h.counted, h.same, h.threads);
  threads = ground (arith, h.counted, h.same, h.threads);
  shut = ground (arith, h.counted, h.same, h.threads, h.shut);
  told = λ z. ground (arith, h.counted, h.same, z);
}

wake-Holds : (n : ℕ) (b : Barrier) → Holds n b → Holds n (wake b)
unfolding wake notify_all
wake-Holds n b h = record {
  counted = ground (arith, h.counted);
  same = ground (arith, h.same);
  threads = ground (arith, h.threads);
  shut = ground (arith, h.shut);
  told = λ z. ground (arith, h.told, z);
}

spurious-Holds : (n : ℕ) (b : Barrier) → Holds n b → Holds n (spurious b)
unfolding spurious
spurious-Holds n b h = record {
  counted = ground (arith, h.counted);
  same = ground (arith, h.same);
  threads = ground (arith, h.threads);
  shut = ground (arith, h.shut);
  told = λ z. ground (arith, h.told, z);
}

enter-entered : (b : Barrier) → (enter b).entered ≡ suc b.entered
unfolding enter notify_all
enter-entered b = ground arith

wake-entered : (b : Barrier) → (wake b).entered ≡ b.entered
unfolding wake notify_all
wake-entered b = ground arith

spurious-entered : (b : Barrier) → (spurious b).entered ≡ b.entered
unfolding spurious
spurious-entered b = ground arith

Reached-Holds : (n : ℕ) (b : Barrier) → Reached n b → b.entered ≤ n → Holds n b
Reached-Holds n _ start le = record {
  counted = ground arith;
  same = refl;
  threads = refl;
  shut = inl refl;
  told = λ z. refl;
}
Reached-Holds n _ (enters b r) le =
    let lt : b.entered < n = ground (arith, enter-entered b) in
    enter-Holds n b (Reached-Holds n b r (omega arith)) lt
Reached-Holds n _ (wakes b r) le =
    wake-Holds n b (Reached-Holds n b r (ground (arith, wake-entered b)))
Reached-Holds n _ (rouses b r) le =
    spurious-Holds n b (Reached-Holds n b r (ground (arith, spurious-entered b)))

-- As long as no more threads have come than the barrier was made for, no thread has left before the
-- last of them has come.
pub wait_together : (n : ℕ) (b : Barrier) → Reached n b → b.entered ≤ n → 1 ≤ b.left → b.entered ≡ n
wait_together n b r le some_left =
    let h = Reached-Holds n b r le in ground (arith, h.counted, h.shut)

-- Each of some threads that have been notified tests the condition.
unfoldable pub wake_all : ℕ → Barrier → Barrier
wake_all zero b = b
wake_all (suc k) b = wake_all k (wake b)

wake_all-left :
    (k : ℕ) (b : Barrier)
    → b.number ≡ 0
    → b.blocked ≡ 0
    → b.notified ≡ k
    → (wake_all k b).left ≡ k + b.left
unfolding wake_all wake notify_all
wake_all-left zero b z w e = ground arith
wake_all-left (suc k) b z w e =
    wake_all-left k (wake b) (ground (arith, e, z)) (ground (arith, e, z)) (ground (arith, e, z, w))
    ∙ ground (arith, e, z)

-- When exactly as many threads have come as the barrier was made for, each thread that has not left
-- has been notified, and when each of these has tested the condition once, all have left.
pub wait_ends :
    (n : ℕ) (b : Barrier)
    → Reached n b
    → b.entered ≡ n
    → (b.blocked ≡ 0) × ((wake_all b.notified b).left ≡ n)
wait_ends n b r e =
    let h = Reached-Holds n b r (omega arith) in
    let z : b.number ≡ 0 = ground (arith, h.counted) in
    (h.told z, wake_all-left b.notified b z (h.told z) refl ∙ ground (arith, h.threads, h.told z))

-- An application that is not running is not stopped, and one that is runs on to the wait of
-- `HttpImplement::stop`, with one thread more in the barrier.
pub stop_app-enter :
    (http : Option Bool) (b : Barrier) → stop_app http b ≡ (if is_running http then enter b else b)
unfolding stop_app
stop_app-enter none b = refl
stop_app-enter (some true) b = refl
stop_app-enter (some false) b = refl
