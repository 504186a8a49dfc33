-- ===== src/Executor/IdleTimeout.antt =====
-- `timeout_signal` (crates/executor/src/service.rs) against the runs of idle ticks that it waits for.
use rustice.Prelude.{
  ℕ, ◌+◌, ◌-◌, ◌≤◌, Bool, true, false, ◌≡◌, ◌⊎◌, inl, inr, refl, Option, none, some, List, [], ◌∷◌,
  ◌++◌, leb, arith, length, Option-cases, Bool-cases, leb→le, ap,
}
use rustice.Executor.Sessions.{idle_tick, timeout_signal}

abbrev pub AllIdle : List (ℕ × Bool) → Type 0
AllIdle [] = Unit {0}
AllIdle ((now, idle_now) ∷ ticks) = (idle_now ≡ true) × AllIdle ticks

-- The first `n` ticks are idle, and the last of them comes the time-out or more after `since`.
pub record LastsSince (idle_timeout since n : ℕ) (ticks : List (ℕ × Bool)) : Type 0 where
  pub window : List (ℕ × Bool)
  pub after : List (ℕ × Bool)
  pub last : ℕ
  pub split : ticks ≡ window ++ (last, true) ∷ after
  pub idle : AllIdle window
  pub long : idle_timeout ≤ last - since
  pub number : n ≡ length window + 1

-- Among the first `n` ticks the last ones are idle, from `first` on, for the time-out or more.
pub record IdleWindow (idle_timeout n : ℕ) (ticks : List (ℕ × Bool)) : Type 0 where
  pub before : List (ℕ × Bool)
  pub first : ℕ
  pub rest : List (ℕ × Bool)
  pub m : ℕ
  pub split : ticks ≡ before ++ (first, true) ∷ rest
  pub lasts : LastsSince idle_timeout first m rest
  pub number : n ≡ length before + 1 + m

-- What a return after `n` ticks means, where the idle window is open since some time, or not.
abbrev WindowSince : ℕ → ℕ → List (ℕ × Bool) → Option ℕ → Type 0
WindowSince idle_timeout n ticks none = IdleWindow idle_timeout n ticks
WindowSince idle_timeout n ticks (some start) =
    LastsSince idle_timeout start n ticks ⊎ IdleWindow idle_timeout n ticks

module _ (idle_timeout : ℕ) where
  later_window :
      (tick : ℕ × Bool) (n : ℕ) (ticks : List (ℕ × Bool))
      → IdleWindow idle_timeout n ticks
      → IdleWindow idle_timeout (n + 1) (tick ∷ ticks)
  later_window tick n ticks h = record {
    before = tick ∷ h.before;
    rest = h.rest;
    first = h.first;
    m = h.m;
    split = ap (λ l. tick ∷ l) h.split;
    lasts = h.lasts;
    number = omega (arith, h.number);
  }

  longer_window :
      (now since n : ℕ) (ticks : List (ℕ × Bool))
      → LastsSince idle_timeout since n ticks
      → LastsSince idle_timeout since (n + 1) ((now, true) ∷ ticks)
  longer_window now since n ticks h = record {
    window = (now, true) ∷ h.window;
    after = h.after;
    last = h.last;
    split = ap (λ l. (now, true) ∷ l) h.split;
    idle = (refl, h.idle);
    long = h.long;
    number = omega (arith, h.number);
  }

  first_window :
      (now n : ℕ) (ticks : List (ℕ × Bool))
      → LastsSince idle_timeout now n ticks ⊎ IdleWindow idle_timeout n ticks
      → IdleWindow idle_timeout (n + 1) ((now, true) ∷ ticks)
  first_window now n ticks (inl h) = record {
    before = [];
    rest = ticks;
    first = now;
    m = n;
    split = refl;
    lasts = h;
    number = omega arith;
  }
  first_window now n ticks (inr h) = later_window (now, true) n ticks h

  -- The answer of the loop after a tick that goes on.
  after_tick :
      (next since : Option ℕ) (now n : ℕ) (idle_now : Bool) (ticks : List (ℕ × Bool))
      → idle_tick idle_timeout now idle_now since ≡ some next
      → timeout_signal idle_timeout since ((now, idle_now) ∷ ticks) ≡ some n
      → (k : ℕ) × (timeout_signal idle_timeout next ticks ≡ some k) × (n ≡ k + 1)
  unfolding timeout_signal
  after_tick next since now n idle_now ticks goes e =
      elim (Option-cases (timeout_signal idle_timeout next ticks)) [
        | inl never ↦ absurd (ground (arith, goes, never))
        | inr (k, answers) ↦ (k, answers, ground (arith, goes, answers, e))
      ]

  window_since :
      (since : Option ℕ) (ticks : List (ℕ × Bool)) (n : ℕ)
      → timeout_signal idle_timeout since ticks ≡ some n
      → WindowSince idle_timeout n ticks since
  unfolding timeout_signal idle_tick
  window_since none [] n e = absurd (ground (arith, e))
  window_since (some start) [] n e = absurd (ground (arith, e))
  window_since none ((now, true) ∷ ticks) n e =
      let (k, answers, number) = after_tick (some now) none now n true ticks refl e in
      rw number (first_window now k ticks (window_since (some now) ticks k answers))
  window_since none ((now, false) ∷ ticks) n e =
      let (k, answers, number) = after_tick none none now n false ticks refl e in
      rw number (later_window (now, false) k ticks (window_since none ticks k answers))
  window_since (some start) ((now, false) ∷ ticks) n e =
      let (k, answers, number) = after_tick none (some start) now n false ticks refl e in
      rw number (inr (later_window (now, false) k ticks (window_since none ticks k answers)))
  window_since (some start) ((now, true) ∷ ticks) n e =
      elim (Bool-cases (leb idle_timeout (now - start))) [
        | inl long ↦ inl record {
          window = [];
          after = ticks;
          last = now;
          split = refl;
          idle = tt;
          long = leb→le idle_timeout (now - start) long;
          number = ground (arith, long, e);
        }
        | inr short ↦
            let (k, answers, number) =
              after_tick (some start) (some start) now n true ticks (ground (arith, short)) e in
            rw number (elim (window_since (some start) ticks k answers) [
              | inl h ↦ inl (longer_window now start k ticks h)
              | inr h ↦ inr (later_window (now, true) k ticks h)
            ])
      ]

  -- When the loop, started afresh, returns after `n` ticks, these ticks end with a run of idle ones,
  -- the last of which comes the time-out or more after the first.
  pub timeout_signal_lem :
      (ticks : List (ℕ × Bool)) (n : ℕ)
      → timeout_signal idle_timeout none ticks ≡ some n
      → IdleWindow idle_timeout n ticks
  timeout_signal_lem ticks n e = window_since none ticks n e
