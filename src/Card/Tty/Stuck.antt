-- ===== src/Card/Tty/Stuck.antt =====
-- A second opening of a terminal, and what it does to the first.
use chan_extra.Prelude.{ℕ, ◌<◌, ◌≡◌, ◌∙◌, false, some, List, arith}
use chan_extra.Card.Port.{Port}
use chan_extra.Card.Tty.{Reply, Terminal, enodev, eperm, ttygsm_close, ttygsm_open, ttygsm_write}

-- What is done to a terminal: it is opened, closed or written to, or its span changes.
pub data TtyStep : Terminal → Terminal → Type 0 where
  opened : {t : Terminal} → TtyStep t (ttygsm_open t).0
  closed : {t : Terminal} → TtyStep t (ttygsm_close t)
  wrote :
      {t t' : Terminal} (buffer : List ℕ) (r : Reply)
      → ttygsm_write t buffer ≡ some (t', r)
      → TtyStep t t'
  changed : {t : Terminal} (port : Port) → TtyStep t (record t { port = port })

pub data TtyRun : Terminal → Terminal → Type 0 where
  stay : {t : Terminal} → TtyRun t t
  step : {t u v : Terminal} → TtyStep t u → TtyRun u v → TtyRun t v

-- Opened, but with nothing by which it could be closed or written to.
pub record IsStuck (n : ℕ) (t : Terminal) : Type 0 where
  pub lost : t.driver_data ≡ false
  pub still_open : t.open_count ≡ n

-- Opening a terminal that is open is refused, and forgets it.
open-IsStuck : (t : Terminal) → 0 < t.open_count → IsStuck t.open_count (ttygsm_open t).0
unfolding ttygsm_open
open-IsStuck t h = ground arith

open_refused : (n : ℕ) (t : Terminal) → 0 < n → IsStuck n t → (ttygsm_open t).1 ≡ eperm
unfolding ttygsm_open
open_refused n t h stuck = ground arith

write_refused :
    (n : ℕ) (t : Terminal) (buffer : List ℕ)
    → IsStuck n t
    → ttygsm_write t buffer ≡ some (t, enodev)
unfolding ttygsm_write
write_refused n t buffer stuck = let lost = stuck.lost in ground arith

close_stuck : (n : ℕ) (t : Terminal) → IsStuck n t → ttygsm_close t ≡ t
unfolding ttygsm_close
close_stuck n t stuck = let lost = stuck.lost in ground arith

step-IsStuck : (n : ℕ) (t u : Terminal) → 0 < n → TtyStep t u → IsStuck n t → IsStuck n u
step-IsStuck n t u h opened stuck =
    let s = open-IsStuck t (rw stuck.still_open h) in
    record { lost = s.lost; still_open = s.still_open ∙ stuck.still_open }
step-IsStuck n t u h closed stuck = rw (close_stuck n t stuck) stuck
step-IsStuck n t u h (wrote buffer r e) stuck =
    let refused = write_refused n t buffer stuck in let same : t ≡ u = cc in rw (← same) stuck
step-IsStuck n t u h (changed port) stuck = record {
  lost = stuck.lost;
  still_open = stuck.still_open;
}

run-IsStuck : {n : ℕ} {t u : Terminal} → 0 < n → TtyRun t u → IsStuck n t → IsStuck n u
run-IsStuck h stay stuck = stuck
run-IsStuck {n} {t} h (step {u} s r) stuck = run-IsStuck h r (step-IsStuck n t u h s stuck)

-- After a second opening of an open terminal it is as good as lost: whatever is then done to it, also
-- by the one that had opened it, every opening is refused and every write fails, and closing it
-- changes nothing.
pub run_stuck :
    (t u : Terminal) (buffer : List ℕ)
    → 0 < t.open_count
    → TtyRun (ttygsm_open t).0 u
    → ((ttygsm_open u).1 ≡ eperm)
      × (ttygsm_write u buffer ≡ some (u, enodev))
      × (ttygsm_close u ≡ u)
      × (u.open_count ≡ t.open_count)
run_stuck t u buffer h r =
    let stuck = run-IsStuck h r (open-IsStuck t h) in
    (
      open_refused t.open_count u h stuck,
      write_refused t.open_count u buffer stuck,
      close_stuck t.open_count u stuck,
      stuck.still_open,
    )
