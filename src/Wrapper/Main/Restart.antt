-- ===== src/Wrapper/Main/Restart.antt =====
-- The loop of `SensorWrapper.start` (sensors/wrapper/sensor_wrapper.py) around `main`.
use virt_ue_sensing.Base.{
  ◌+◌, arith, ◌≡◌, Bool-cases, inl, inr, ℕ, zero, suc, Bool, true, false, Option, none, some,
  if◌then◌else◌,
}
use virt_ue_sensing.Base.Exec.{Exc, Result, ok, err, task_error}

-- `main` on a state that has the clock; it may not return. `stop i` is `_stop_retrying` at the i-th
-- test.
module _ {ℓ} {S : Type ℓ} (main : S → Option (Result (Unit {0})) × S) (back_off : S → S)
    (stop : ℕ → Bool) where
  -- A `TaskError` is waited out, another exception ends the loop.
  abbrev is_task_error : Exc → Bool
  is_task_error task_error = true
  is_task_error _ = false

  -- One round; `inr` when the loop ends with an exception.
  unfoldable pub start : ℕ → ℕ → S → Option (Result (Unit {0})) × S
  start zero i s = (none, s)
  start (suc f) i s =
      let t = (main s).1 in
      let again = start f (suc i) t in
      let later = start f (suc i) (back_off t) in
      if stop i then (some (ok tt), s) else elim (main s).0 [
        | none ↦ (none, t)
        | some r ↦ elim r [
          | ok u ↦ again
          | err x ↦ if is_task_error x then later else (some (err x), t)
        ]
      ]

  abbrev retried : Option (Result (Unit {0})) → Bool
  retried none = false
  retried (some (ok u)) = true
  retried (some (err x)) = is_task_error x

  -- The state with which the next round begins.
  abbrev next_of : Option (Result (Unit {0})) → S → S
  next_of none t = t
  next_of (some (ok u)) t = t
  next_of (some (err x)) t = back_off t

  abbrev next : S → S
  next s = next_of (main s).0 (main s).1

  -- When the loop returns without an exception, the flag was set at one of its tests.
  pub start-told :
      (f i : ℕ) (s : S) → (start f i s).0 ≡ some (ok tt) → (k : ℕ) × (stop (i + k) ≡ true)
  unfolding start
  start-told zero i s e = absurd (ground arith)
  start-told (suc f) i s e = elim (Bool-cases (stop i)) [
    | inl told ↦ (0, ground arith)
    | inr going ↦ elim (Bool-cases (retried (main s).0)) [
      | inr ended ↦ absurd (ground arith)
      | inl again ↦
          let (k, t) = start-told f (suc i) (next s) (ground arith) in (suc k, ground arith)
    ]
  ]
