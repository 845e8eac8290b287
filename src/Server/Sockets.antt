-- ===== src/Server/Sockets.antt =====
-- The array of sockets of DNW_Server/Server/Server/Server.cpp, under acceptance and closing.
use jira_game.Base.{
  Bool, Bool-cases, List, [], ap, arith, count, get_elem?, if◌then◌else◌, inl, inr, length,
  length-append, ltb, none, refl, some, some_inj, subst, suc, sym, zero, ℕ, ◌++◌, ◌+◌, ◌==◌, ◌∷◌,
  ◌≡◌, ◌≤◌, ◌⊎◌,
}
use jira_game.Server.{
  Server, accept_client, accept_round, close_socket, drop_socket, fd_setsize, invalid_socket,
  last_socket, without_last,
}
use jira_game.Hall.Seats.{set}

module _ (p : ℕ → Bool) where
  -- How often a socket counts.
  abbrev once : ℕ → ℕ
  once k = if p k then 1 else 0

  count-without_last :
      (k : ℕ) (ks : List ℕ)
      → count p (k ∷ ks) ≡ once (last_socket k ks) + count p (without_last (k ∷ ks))
  count-without_last k [] = ground arith
  count-without_last k (l ∷ ks) = ground (arith, count-without_last l ks)

  count-set :
      (ks : List ℕ) (i k v : ℕ)
      → get_elem? ks i ≡ some k
      → once k + count p (set ks i v) ≡ once v + count p ks
  count-set [] i k v h = absurd (cc h)
  count-set (l ∷ ks) zero k v h = let e : l ≡ k = some_inj h in rw e (ground arith)
  count-set (l ∷ ks) (suc i) k v h = ground (arith, count-set ks i k v h)

last-set :
    (k : ℕ) (ks : List ℕ) (i e : ℕ)
    → last_socket e (set (k ∷ ks) i (last_socket k ks)) ≡ last_socket k ks
last-set k [] zero e = refl
last-set k [] (suc i) e = refl
last-set k (l ∷ ks) zero e = refl
last-set k (l ∷ ks) (suc i) e = last-set l ks i k

count-drop :
    (p : ℕ → Bool) (k0 : ℕ) (ks : List ℕ) (i k : ℕ)
    → get_elem? (k0 ∷ ks) i ≡ some k
    → once p k + count p (drop_socket i (k0 ∷ ks)) ≡ count p (k0 ∷ ks)
unfolding drop_socket
count-drop p k0 ks zero k h = omega (
  arith,
  count-set p (k0 ∷ ks) zero k (last_socket k0 ks) h,
  count-without_last p (last_socket k0 ks) ks,
  ap (once p) (last-set k0 ks zero 0),
)
count-drop p k0 ks (suc i) k h = omega (
  arith,
  count-set p (k0 ∷ ks) (suc i) k (last_socket k0 ks) h,
  count-without_last p k0 (set ks i (last_socket k0 ks)),
  ap (once p) (last-set k0 ks (suc i) 0),
)

-- Closing the i-th socket keeps the world, and takes out of the array that socket once and no other:
-- for every test on sockets, as many pass as before, less one if the closed socket passes.
close_socket-count :
    (p : ℕ → Bool) (i k : ℕ) (sv : Server)
    → get_elem? sv.cli_sockets i ≡ some k
    → ((close_socket i sv).world ≡ sv.world)
      × (count p (k ∷ (close_socket i sv).cli_sockets) ≡ count p sv.cli_sockets)
unfolding close_socket
close_socket-count p i k sv h = (refl, by_sockets sv.cli_sockets h)
  where
    by_sockets :
        (ks : List ℕ) → get_elem? ks i ≡ some k → count p (k ∷ drop_socket i ks) ≡ count p ks
    by_sockets [] e = absurd (cc e)
    by_sockets (k0 ∷ ks) e = ground (arith, count-drop p k0 ks i k e)

-- An accepted client that is stored leaves at most 64 sockets in the array: with 64 stored, the round
-- returns only for an invalid socket, for which it stores nothing.
pub accept_round-length :
    (s : ℕ) (sv sv' : Server)
    → length sv.cli_sockets ≤ fd_setsize
    → accept_round s sv ≡ some sv'
    → (length sv'.cli_sockets ≤ fd_setsize)
      × ((sv'.cli_sockets ≡ sv.cli_sockets) ⊎ (sv'.cli_sockets ≡ sv.cli_sockets ++ s ∷ []))
unfolding accept_round
accept_round-length s sv sv' few h = elim (Bool-cases (s == invalid_socket)) [
  | inl invalid ↦
      let e : some (record sv { world = accept_client s sv.world }) ≡ some sv' = rw invalid at h in
      let k : sv.cli_sockets ≡ sv'.cli_sockets = ap (λ v. v.cli_sockets) (some_inj e) in
      (subst (λ ks. length ks ≤ fd_setsize) k few, inl (sym k))
  | inr valid ↦ elim (Bool-cases (ltb (length sv.cli_sockets) fd_setsize)) [
    | inl room ↦
        let e : some
              (record { world = accept_client s sv.world; cli_sockets = sv.cli_sockets ++ s ∷ [] })
            ≡ some sv' =
          rw (valid, room) at h in
        let k : sv.cli_sockets ++ s ∷ [] ≡ sv'.cli_sockets = ap (λ v. v.cli_sockets) (some_inj e) in
        (
          subst (λ ks. length ks ≤ fd_setsize) k
              (ground (arith, length-append sv.cli_sockets (s ∷ []))),
          inr (sym k),
        )
    | inr full ↦ let no : none ≡ some sv' = rw (valid, full) at h in absurd (cc no)
  ]
]
