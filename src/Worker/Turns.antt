-- ===== src/Worker/Turns.antt =====
-- The turns of a round of the worker: how many there are, and what they do to the rooms.
use jira_game.Base.{
  After, After->>=, After-if, After-some, List, Option, Option-cases, Text, [], ap, arith,
  get_elem?, inl, inr, length, ltb, none, refl, some, suc, zero, ℕ, ◌+◌, ◌>>=◌, ◌∷◌, ◌≡◌, ◌≤◌,
}
use jira_game.Proto.{CurScene, UnPacket}
use jira_game.World.{World}
use jira_game.Cache.{get_entity}
use jira_game.Hall.Seats.{set}
use jira_game.Server.{close_socket, drop_socket, fd_setsize, last_socket, without_last}
use jira_game.Db.Library.{Sqlite}
use jira_game.Db.Calls.{DbServer}
use jira_game.Scenes.{msg_distribute, process_msg_logic}
use jira_game.Worker.{
  Received, Site, broken, bytes, deliver, fd_count, handle, receive, reset, serve, worker_round,
}

length-set : (ks : List ℕ) (i v : ℕ) → length (set ks i v) ≡ length ks
length-set [] i v = refl
length-set (k ∷ ks) zero v = refl
length-set (k ∷ ks) (suc i) v = ap suc (length-set ks i v)

length-without_last : (ks : List ℕ) → length (without_last ks) ≤ length ks
length-without_last [] = omega arith
length-without_last (k ∷ []) = omega arith
length-without_last (k ∷ l ∷ ks) = omega (arith, length-without_last (l ∷ ks))

length-drop : (i : ℕ) (ks : List ℕ) → length (drop_socket i ks) ≤ length ks
unfolding drop_socket
length-drop i ks =
    omega
      (arith, length-without_last (set ks i (last_socket 0 ks)), length-set ks i (last_socket 0 ks))

>>=-cong {ℓ κ} :
    {A : Type ℓ} {B : Type κ} (m : Option A) {f g : A → Option B}
    → ((a : A) → m ≡ some a → f a ≡ g a)
    → (m >>= f) ≡ (m >>= g)
>>=-cong none h = refl
>>=-cong (some a) h = h a refl

-- What the turns keep, where messages keep `Q`: this, and a bound on the stored sockets.
abbrev pub Ok : {L : Sqlite} → (World → Type 0) → ℕ → Site L → Type 0
Ok Q k st = Q st.server.world × (length st.server.cli_sockets ≤ k)

module _ (L : Sqlite) (strcpy_s : Text → Text → Text) (parse : Text → UnPacket) (Q : World → Type 0)
    (keeps : (fuel : ℕ) (scene : CurScene) (socket : ℕ) (p : UnPacket) (w : World) (d : DbServer L)
        (r : World × DbServer L)
      → process_msg_logic L fuel scene socket p w d ≡ some r
      → Q w
      → Q r.0) where
  deliver-Ok :
      (k fuel socket size : ℕ) (source : Text) (st : Site L)
      → Ok Q k st
      → After (Ok Q k) (deliver L strcpy_s parse fuel socket size source st)
  unfolding deliver msg_distribute
  deliver-Ok k fuel socket size source st h =
      elim (Option-cases (get_entity socket st.server.world.cache)) [
        | inl gone ↦ rw (gone, deliver) h
        | inr (e, known) ↦
            rw (known, deliver)
              (After->>= (Ok Q k)
                (msg_distribute L parse fuel e.sock_client _ st.server.world st.db) _
                (λ r run. (keeps fuel _ e.sock_client _ _ st.db r run h.0, h.1)))
      ]

  close-Ok :
      (k i : ℕ) (st : Site L) → Ok Q k st → Ok Q k (record st { server = close_socket i st.server })
  unfolding close_socket
  close-Ok k i st h = (h.0, omega (arith, h.1, length-drop i st.server.cli_sockets))

  handle-Ok :
      (k fuel i socket : ℕ) (r : Received) (st : Site L)
      → Ok Q k st
      → After (Ok Q k) (handle L strcpy_s parse fuel i socket r st)
  unfolding handle receive
  handle-Ok k fuel i socket (bytes []) st h = close-Ok k i st h
  handle-Ok k fuel i socket (bytes (b ∷ bs)) st h = deliver-Ok k fuel socket _ _ st h
  handle-Ok k fuel i socket reset st h = close-Ok k i st h
  handle-Ok k fuel i socket broken st h = tt

  turn-Ok :
      (k fuel i socket : ℕ) (got : Option Received) (st : Site L)
      → Ok Q k st
      → After
          (Ok Q k)
          (elim got [ none ↦ some st | some r ↦ handle L strcpy_s parse fuel i socket r st ])
  turn-Ok k fuel i socket none st h = h
  turn-Ok k fuel i socket (some r) st h = handle-Ok k fuel i socket r st h

  serve-Ok :
      (k fuel n i : ℕ) (got : ℕ → Option Received) (st : Site L)
      → Ok Q k st
      → After (Ok Q k) (serve L strcpy_s parse fuel n i got st)
  unfolding serve
  serve-Ok k fuel zero i got st h = h
  serve-Ok k fuel (suc n) i got st h = elim (Option-cases (get_elem? st.server.cli_sockets i)) [
    | inl over ↦ rw (over, serve) h
    | inr (socket, stored) ↦
        rw (stored, serve)
          (After->>= (Ok Q k) _ _ (λ st' e.
            serve-Ok k fuel n (i + 1) got st'
              (After-some (Ok Q k) _ (turn-Ok k fuel i socket (got i) st h) e)))
  ]

  pub worker_round-Ok :
      (k fuel : ℕ) (got : ℕ → Option Received) (st : Site L)
      → Ok Q k st
      → After (Ok Q k) (worker_round L strcpy_s parse fuel got st)
  unfolding worker_round
  worker_round-Ok k fuel got st h =
      After-if (Ok Q k) (ltb (fd_count st.server.cli_sockets) fd_setsize) _ _
        (λ few. serve-Ok k fuel (length st.server.cli_sockets) 0 got st h) (λ full. h)

module _ (L : Sqlite) (strcpy_s : Text → Text → Text) (parse : Text → UnPacket) where
  get_elem?-over : (ks : List ℕ) (i : ℕ) → length ks ≤ i → get_elem? ks i ≡ none
  get_elem?-over [] i h = refl
  get_elem?-over (k ∷ ks) zero h = absurd (omega (arith, h))
  get_elem?-over (k ∷ ks) (suc i) h = get_elem?-over ks i (omega (arith, h))

  turn : ℕ → ℕ → ℕ → Option Received → Site L → Option (Site L)
  turn fuel i socket got st = elim got [
    | none ↦ some st
    | some r ↦ handle L strcpy_s parse fuel i socket r st
  ]

  -- As many turns as there are sockets from the i-th on are enough: with more, a round does the same.
  pub serve_enough :
      (fuel m n i : ℕ) (got : ℕ → Option Received) (st : Site L)
      → length st.server.cli_sockets ≤ i + n
      → n ≤ m
      → serve L strcpy_s parse fuel m i got st ≡ serve L strcpy_s parse fuel n i got st
  unfolding serve turn
  serve_enough fuel zero zero i got st short le = refl
  serve_enough fuel zero (suc n) i got st short le = absurd (omega (arith, le))
  serve_enough fuel (suc m) zero i got st short le =
      rw (get_elem?-over st.server.cli_sockets i (omega (arith, short)), serve) refl
  serve_enough fuel (suc m) (suc n) i got st short le =
      elim (Option-cases (get_elem? st.server.cli_sockets i)) [
        | inl over ↦ rw (over, serve) refl
        | inr (socket, stored) ↦
            rw (stored, serve)
              (>>=-cong (turn fuel i socket (got i) st) (λ st' e.
                serve_enough fuel m n (i + 1) got st'
                  (omega (
                    arith,
                    (After-some (Ok (λ w. Unit {0}) (i + suc n)) _
                        (turn-Ok L strcpy_s parse (λ w. Unit {0}) (λ _ _ _ _ _ _ _ _ _. tt)
                          (i + suc n) fuel i socket (got i) st (tt, short))
                        e).1,
                  ))
                  (omega (arith, le))))
      ]
