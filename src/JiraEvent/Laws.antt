-- ===== src/JiraEvent/Laws.antt =====
-- What sending does to the observers, the cache and the sent packets.
use jira_game.Base.{
  Dict, List, Option, [], ap, append-nil, append_assoc, arith, lookup, lookup-insert, none, refl,
  some, sym, ℕ, ◌++◌, ◌∙◌, ◌∷◌, ◌≡◌,
}
use jira_game.Proto.{Packet}
use jira_game.World.{World}
use jira_game.JiraEvent.{send_all, send_msg}

-- What a packet for the listed sockets adds to the sent packets: one copy for each socket that has
-- an observer, on that observer's own socket, in the order of the list.
abbrev pub deliveries : Dict (Option ℕ) → Packet → List ℕ → List (ℕ × Packet)
deliveries d p [] = []
deliveries d p (s ∷ ss) = elim (lookup s d) [
  | none ↦ deliveries d p ss
  | some none ↦ deliveries d p ss
  | some (some c) ↦ (c, p) ∷ deliveries d p ss
]

-- An observer that is present; a null pointer counts as none.
abbrev pub observer : ℕ → Dict (Option ℕ) → Option ℕ
observer s d = elim (lookup s d) [ none ↦ none | some o ↦ o ]

pub send_msg-cache : (s : ℕ) (p : Packet) (w : World) → (send_msg s p w).cache ≡ w.cache
unfolding send_msg
send_msg-cache s p w = ground arith

pub observer-send_msg :
    (j s : ℕ) (p : Packet) (w : World)
    → observer j (send_msg s p w).listeners ≡ observer j w.listeners
unfolding send_msg
observer-send_msg j s p w = ground (arith, lookup-insert j s none w.listeners)

pub deliveries-eq :
    (d d' : Dict (Option ℕ)) (p : Packet) (ss : List ℕ)
    → ((j : ℕ) → observer j d ≡ observer j d')
    → deliveries d p ss ≡ deliveries d' p ss
deliveries-eq d d' p [] h = refl
deliveries-eq d d' p (s ∷ ss) h = ground (arith, h s, deliveries-eq d d' p ss h)

pub send_all-cache : (ss : List ℕ) (p : Packet) (w : World) → (send_all ss p w).cache ≡ w.cache
unfolding send_all
send_all-cache [] p w = refl
send_all-cache (s ∷ ss) p w = send_all-cache ss p (send_msg s p w) ∙ send_msg-cache s p w

pub observer-send_all :
    (j : ℕ) (ss : List ℕ) (p : Packet) (w : World)
    → observer j (send_all ss p w).listeners ≡ observer j w.listeners
unfolding send_all
observer-send_all j [] p w = refl
observer-send_all j (s ∷ ss) p w =
    observer-send_all j ss p (send_msg s p w) ∙ observer-send_msg j s p w

pub send_msg-sent :
    (s : ℕ) (p : Packet) (w : World)
    → (send_msg s p w).sent ≡ w.sent ++ deliveries w.listeners p (s ∷ [])
unfolding send_msg
send_msg-sent s p w = ground (arith, append-nil w.sent)

deliveries-append :
    (d : Dict (Option ℕ)) (p : Packet) (ss ts : List ℕ)
    → deliveries d p (ss ++ ts) ≡ deliveries d p ss ++ deliveries d p ts
deliveries-append d p [] ts = refl
deliveries-append d p (s ∷ ss) ts = ground (arith, deliveries-append d p ss ts)

-- A packet for a list of sockets is sent once for each listed socket that has an observer, on the
-- observer's own socket and in the order of the list, after all that was sent before.
pub send_all-sent :
    (ss : List ℕ) (p : Packet) (w : World)
    → (send_all ss p w).sent ≡ w.sent ++ deliveries w.listeners p ss
unfolding send_all
send_all-sent [] p w = sym (append-nil w.sent)
send_all-sent (s ∷ ss) p w =
    send_all-sent ss p (send_msg s p w)
    ∙ ap (λ d. (send_msg s p w).sent ++ d)
        (deliveries-eq (send_msg s p w).listeners w.listeners p ss (λ j. observer-send_msg j s p w))
    ∙ ap (λ l. l ++ deliveries w.listeners p ss) (send_msg-sent s p w)
    ∙ append_assoc w.sent (deliveries w.listeners p (s ∷ [])) (deliveries w.listeners p ss)
    ∙ ap (λ d. w.sent ++ d) (sym (deliveries-append w.listeners p (s ∷ []) ss))

pub send_msg-heap : (s : ℕ) (p : Packet) (w : World) → (send_msg s p w).heap ≡ w.heap
unfolding send_msg
send_msg-heap s p w = ground arith

pub send_all-heap : (ss : List ℕ) (p : Packet) (w : World) → (send_all ss p w).heap ≡ w.heap
unfolding send_all
send_all-heap [] p w = refl
send_all-heap (s ∷ ss) p w = send_all-heap ss p (send_msg s p w) ∙ send_msg-heap s p w
