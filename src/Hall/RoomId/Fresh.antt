-- ===== src/Hall/RoomId/Fresh.antt =====
-- Which id `GenrateOnlyRoomID` returns.
use jira_game.Base.{
  >>=-eq-some, Bool, Bool-cases, ap, arith, false, if◌then◌else◌, inl, inr, refl, some, some_inj,
  subst, suc, true, zero, ℕ, ◌*◌, ◌+◌, ◌<◌, ◌>>=◌, ◌∙◌, ◌≡◌, ◌≤◌, ◌⊎◌,
}
use jira_game.World.{World}
use jira_game.Cache.{check_entity_room_is_only}
use jira_game.Utl.{genrate_random_id, random_pieces, string2_int}
use jira_game.Utl.RandomId.{random_id_range, random_id_world}
use jira_game.Hall.RoomId.{genrate_only_room_id}

-- The k-th random id from a world on, counted from 0.
abbrev pub candidate : ℕ → World → ℕ
candidate k w = string2_int (random_pieces 6 w.rand_of (w.drawn + k * 6))

abbrev pub is_free : ℕ → World → Bool
is_free id w = check_entity_room_is_only id w.cache

-- What a call that returned has done: it has only drawn numbers, and the id that it returned is a
-- free one of six digits or more, or, exactly where the first random id was in use, it is 0.
pub record Generated (w : World) (r : ℕ × World) : Type 0 where
  pub only_draws : (n : ℕ) × (r.1 ≡ record w { drawn = w.drawn + n * 6 })
  pub free_or_zero :
      ((is_free (candidate 0 w) w ≡ true)
        × (is_free r.0 w ≡ true)
        × (111111 ≤ r.0)
        × (r.0 ≤ 2147483647))
      ⊎ ((is_free (candidate 0 w) w ≡ false) × (r.0 ≡ 0))

first_candidate : (w : World) → string2_int (genrate_random_id w).0 ≡ candidate 0 w
unfolding genrate_random_id
first_candidate w = ap (λ d. string2_int (random_pieces 6 w.rand_of d)) (omega arith)

step_once :
    (frames : ℕ) (w : World)
    → genrate_only_room_id (suc frames) w ≡ (
        if is_free (candidate 0 w) w
        then some (candidate 0 w, record w { drawn = w.drawn + 6 })
        else (genrate_only_room_id frames (record w { drawn = w.drawn + 6 }) >>= λ r.
            some (0, r.1)))
unfolding genrate_only_room_id
step_once frames w = rw (random_id_world w, first_candidate w) refl

at_once :
    (w : World)
    → is_free (candidate 0 w) w ≡ true
    → Generated w (candidate 0 w, record w { drawn = w.drawn + 6 })
at_once w free = record {
  only_draws = (1, ap (λ d. record w { drawn = d }) (omega arith));
  free_or_zero = inl (
    free,
    free,
    rw (first_candidate w) at (random_id_range w).0,
    rw (first_candidate w) at (random_id_range w).1,
  );
}

again :
    (w : World) (r : ℕ × World)
    → is_free (candidate 0 w) w ≡ false
    → Generated (record w { drawn = w.drawn + 6 }) r
    → Generated w (0, r.1)
again w r used g = record {
  only_draws =
      (g.only_draws.0 + 1, g.only_draws.1 ∙ ap (λ d. record w { drawn = d }) (omega arith));
  free_or_zero = inr (used, refl);
}

-- Every call that returns has only drawn numbers. The id that it returns is a free one of at least
-- six digits if the first random id is free; otherwise it is 0, whatever free id was found later.
pub genrate_only_room_id-Generated :
    (frames : ℕ) (w : World) {r : ℕ × World}
    → genrate_only_room_id frames w ≡ some r
    → Generated w r
genrate_only_room_id-Generated zero w h = unfold genrate_only_room_id in cc h
genrate_only_room_id-Generated (suc frames) w {r} h =
    elim (Bool-cases (is_free (candidate 0 w) w)) [
      | inl free ↦
          let e : some (candidate 0 w, record w { drawn = w.drawn + 6 }) ≡ some r =
            rw (step_once frames w, free) at h in
          subst (Generated w) (some_inj e) (at_once w free)
      | inr used ↦
          let e : (genrate_only_room_id frames (record w { drawn = w.drawn + 6 }) >>= λ r'.
          some (0, r'.1))
              ≡ some r =
            rw (step_once frames w, used) at h in
          let (r', found, last) = >>=-eq-some _ _ e in
          subst (Generated w) (some_inj last) (
            again w r' used
              (genrate_only_room_id-Generated frames (record w { drawn = w.drawn + 6 }) found))
    ]

-- The generation of a room id returns where a free random id comes up within the depth of the stack.
pub genrate_only_room_id_total :
    (frames k : ℕ) (w : World)
    → k < frames
    → is_free (candidate k w) w ≡ true
    → (r : ℕ × World) × (genrate_only_room_id frames w ≡ some r)
genrate_only_room_id_total zero k w h free = elim h [ ]
genrate_only_room_id_total (suc frames) zero w h free =
    ((candidate 0 w, record w { drawn = w.drawn + 6 }), rw (step_once frames w, free) refl)
genrate_only_room_id_total (suc frames) (suc k) w h free =
    elim (Bool-cases (is_free (candidate 0 w) w)) [
      | inl now ↦
          ((candidate 0 w, record w { drawn = w.drawn + 6 }), rw (step_once frames w, now) refl)
      | inr used ↦
          let (r, found) =
            genrate_only_room_id_total frames k (record w { drawn = w.drawn + 6 }) (omega arith)
              (ap (λ d. is_free (string2_int (random_pieces 6 w.rand_of d)) w) (omega arith)
                ∙ free) in
          ((0, r.1), rw (step_once frames w, used, found) refl)
    ]
