-- ===== src/Worker/Messages.antt =====
-- What the parser is given of a message that has been received.
use jira_game.Base.{
  All, Bool-cases, Text, [], ap, append_assoc, ap₂, arith, c_str, false, inl, inr, insert, length,
  length-append, ltb, refl, some, suc, take, true, zero, ℕ, ◌++◌, ◌-◌, ◌<◌, ◌==◌, ◌>>=◌, ◌∙◌, ◌∷◌,
  ◌≡◌, ◌≢◌,
}
use jira_game.Proto.{UnPacket}
use jira_game.Db.Library.{Sqlite}
use jira_game.Scenes.{msg_distribute, process_msg_logic}
use jira_game.Cache.{Entity, get_entity}
use jira_game.Worker.{Site, bytes, deliver, handle, msgsize, receive, rev_buffer, terminated}

length-zero : (u x y : Text) → length x ≡ length y → length (u ++ 0 ∷ x) ≡ length (u ++ 0 ∷ y)
length-zero u x y h = omega (arith, length-append u (0 ∷ x), length-append u (0 ∷ y))

c_str-zero : (u x y : Text) → c_str (u ++ 0 ∷ x) ≡ c_str (u ++ 0 ∷ y)
unfolding c_str
c_str-zero [] x y = refl
c_str-zero (c ∷ u) x y = rw (c_str-zero u x y) refl

c_str-take :
    (n : ℕ) (u x y : Text)
    → c_str (take n (u ++ 0 ∷ x) ++ 0 ∷ []) ≡ c_str (take n (u ++ 0 ∷ y) ++ 0 ∷ [])
unfolding c_str
c_str-take zero u x y = refl
c_str-take (suc n) [] x y = refl
c_str-take (suc n) (c ∷ u) x y = rw (c_str-take n u x y) refl

c_str-terminated :
    (u x y : Text)
    → length x ≡ length y
    → c_str (terminated (u ++ 0 ∷ x)) ≡ c_str (terminated (u ++ 0 ∷ y))
c_str-terminated u x y h = elim (Bool-cases (ltb (length (u ++ 0 ∷ y)) msgsize)) [
  | inl short ↦
      rw (length-zero u x y h, short)
        (rw (append_assoc u (0 ∷ x) (0 ∷ []), append_assoc u (0 ∷ y) (0 ∷ [])) (c_str-zero u _ _))
  | inr long ↦ rw (length-zero u x y h, long) (c_str-take (msgsize - 1) u x y)
]

-- Bytes without a NUL.
abbrev pub NoNul : Text → Type 0
NoNul = All λ c. c ≢ 0

c_str-NoNul : (t : Text) → NoNul t → c_str (t ++ 0 ∷ []) ≡ t
unfolding c_str
c_str-NoNul [] h = refl
c_str-NoNul (c ∷ t) h =
    let go_on : (c == 0) ≡ false = ground (arith, h.0) in
    rw go_on (ap (λ r. c ∷ r) (c_str-NoNul t h.1))

below : (a b : ℕ) → a < b → ltb a b ≡ true
below a b h = ground arith

take-prefix : (t r : Text) → take (suc (length t)) r ≡ t ++ 0 ∷ [] → take (length t) r ≡ t
take-prefix [] r h = refl
take-prefix (c ∷ t) [] h = absurd (cc h)
take-prefix (c ∷ t) (b ∷ r) h =
    let first : b ≡ c = cc h in
    let others : take (suc (length t)) r ≡ t ++ 0 ∷ [] = cc h in
    ap₂ (λ a ts. a ∷ ts) first (take-prefix t r others)

module _ (L : Sqlite) (strcpy_s : Text → Text → Text) (parse : Text → UnPacket) (fuel i socket : ℕ)
    (st : Site L) where
  receive-eq :
      (bs cs : Text)
      → length bs ≡ length cs
      → c_str (terminated bs) ≡ c_str (terminated cs)
      → receive L strcpy_s parse fuel socket bs st ≡ receive L strcpy_s parse fuel socket cs st
  unfolding receive
  receive-eq bs cs h k =
      ap₂ (λ size source. deliver L strcpy_s parse fuel socket size source st) h k

  -- Two messages of one length that agree up to a NUL byte have the same effect, whatever stands behind
  -- that byte.
  pub handle-nul :
      (u x y : Text)
      → length x ≡ length y
      → handle L strcpy_s parse fuel i socket (bytes (u ++ 0 ∷ x)) st
        ≡ handle L strcpy_s parse fuel i socket (bytes (u ++ 0 ∷ y)) st
  unfolding handle
  handle-nul [] x y h = receive-eq _ _ (length-zero [] x y h) (c_str-terminated [] x y h)
  handle-nul (c ∷ u) x y h =
      receive-eq _ _ (length-zero (c ∷ u) x y h) (c_str-terminated (c ∷ u) x y h)

  -- `strcpy_s` leaves the source and a NUL byte at the front of the buffer, where they fit in.
  module _
      (copies : (old t : Text)
        → length t < msgsize
        → take (suc (length t)) (strcpy_s old t) ≡ t ++ 0 ∷ []) where
    -- Where strcpy_s leaves a text that fits in, with its NUL byte, at the front of the buffer: a
    -- message of fewer than 8192 bytes, none of them NUL, from a socket that has an entity, goes
    -- to the scene that it names, as the parser reads it; but for what the scene does and the
    -- entity's receive buffer, the site stays as it is.
    pub handle-plain :
        (b : ℕ) (bs : Text) (e : Entity)
        → NoNul (b ∷ bs)
        → length (b ∷ bs) < msgsize
        → get_entity socket st.server.world.cache ≡ some e
        → (let p = parse (b ∷ bs) in
            handle L strcpy_s parse fuel i socket (bytes (b ∷ bs)) st ≡ (
              process_msg_logic L fuel p.cur_scene e.sock_client p st.server.world st.db
              >>= λ (w, d). some (record {
                server = record st.server { world = w };
                db = d;
                rev_buffers =
                    insert socket
                      (strcpy_s (rev_buffer L strcpy_s parse socket st) (b ∷ bs))
                      st.rev_buffers;
              })))
    unfolding handle receive deliver msg_distribute
    handle-plain b bs e plain short known =
        let source : c_str (terminated (b ∷ bs)) ≡ b ∷ bs =
          rw (below (length (b ∷ bs)) msgsize short) (c_str-NoNul (b ∷ bs) plain) in
        let whole =
          take-prefix (b ∷ bs) (strcpy_s (rev_buffer L strcpy_s parse socket st) (b ∷ bs))
            (copies (rev_buffer L strcpy_s parse socket st) (b ∷ bs) short) in
        ap (λ t. deliver L strcpy_s parse fuel socket (length (b ∷ bs)) t st) source
        ∙ rw (known, deliver) (rw whole refl)
