-- ===== src/KeepAlive/Clock.antt =====
-- The timers' threads share one `preTime`.
use jira_game.Base.{
  >>=-eq-some, Bool-cases, ap, arith, false, inl, inr, ltb, refl, some, some_inj, sym, true, ℕ, ◌%◌,
  ◌+◌, ◌<◌, ◌>>=◌, ◌∙◌, ◌≡◌, ◌≤◌,
}
use jira_game.World.{World}
use jira_game.Cache.{Entity}
use jira_game.KeepAlive.{or_else, timer_func, timer_of, timer_round}

-- A timer waits while the clock has not passed the shared time by its delta.
waits :
    (b now later t : ℕ) (w : World) (e : Entity) (address : ℕ)
    → timer_of b w.cache ≡ some (e, address)
    → w.pre_time ≡ some t
    → t + e.delta_time < 4294967296
    → now ≤ t + e.delta_time
    → timer_round b now later w ≡ some w
unfolding timer_round
waits b now later t w e address timer pre small early = elim (Bool-cases e.thread_power) [
  | inl stopped ↦ rw (timer, timer_round, stopped) refl
  | inr running ↦ rw (timer, timer_round, running, pre, not_yet) refl
]
  where
    not_yet : ltb ((t + e.delta_time) % 4294967296) now ≡ false
    not_yet = ground arith

-- After a round in which the function of one client's timer has run and returned at the time
-- `later`, a round of any client's timer changes nothing, as long as the clock does not pass
-- `later` by that client's delta. So one run serves all clients.
pub timer_round_shared :
    (a b now later now' later' : ℕ) (w w' : World) (ea eb : Entity) (at_a at_b : ℕ)
    → timer_of a w.cache ≡ some (ea, at_a)
    → ea.thread_power ≡ false
    → (or_else w.pre_time (now % 4294967296) + ea.delta_time) % 4294967296 < now
    → timer_round a now later w ≡ some w'
    → timer_of b w'.cache ≡ some (eb, at_b)
    → later + eb.delta_time < 4294967296
    → now' ≤ later + eb.delta_time
    → timer_round b now' later' w' ≡ some w'
unfolding timer_round
timer_round_shared a b now later now' later' w w' ea eb at_a at_b ta power due h tb small early =
    let pre = or_else w.pre_time (now % 4294967296) in
    let k : (timer_func at_a (record w { pre_time = some pre }) >>= λ v.
    some (record v { pre_time = some (later % 4294967296) }))
        ≡ some w' =
      rw (ta, timer_round, power, fires) at h in
    let (v, ran, e) = >>=-eq-some (timer_func at_a (record w { pre_time = some pre })) _ k in
    waits b now' later' later w' eb at_b tb
      (ap (λ u. u.pre_time) (sym (some_inj e)) ∙ ap some (ground arith)) small early
  where
    fires : ltb ((or_else w.pre_time (now % 4294967296) + ea.delta_time) % 4294967296) now ≡ true
    fires = ground arith
