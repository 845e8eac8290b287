-- ===== src/Messages/SendBuffer.antt =====
-- How the scenes send a packet (the end of each handler, as in DNW_Server/Server/GameLogic/SceneChain:
-- HallScene.cpp, CreateRoom): it is written to an array of its size, and copied from there into the
-- scene's array sendBuffer, of which NotifyClient gives the first bytes to `send`. A copy that is longer
-- than sendBuffer overwrites what lies behind it.
use jira_game.Base.{
  Bool-cases, Option, Text, ap, arith, drop, drop-append, if◌then◌else◌, inl, inr, leb, length,
  length-append, length-drop, none, some, sym, take, take-append, take-length, ℕ, ◌++◌, ◌<◌, ◌∙◌,
  ◌≡◌, ◌≤◌, ◌⊎◌,
}
use jira_game.Worker.{msgsize}
use jira_game.Messages.Coded.{Coded}
use jira_game.Messages.Coded.Laws.{Lawful}
use jira_game.Messages.Packet.{Message, byte_size, serialize}
use jira_game.Messages.Packet.Format.{Fits, length-serialize}

-- The destination after a copy of the first bytes of the source to its front.
abbrev memcpy : Text → Text → ℕ → Text
memcpy destination source size = take size source ++ drop size destination

-- The array and the size, or `none` where the copy would leave the array.
unfoldable pub fill_send_buffer : (W : Coded) → Message W.Unknown → Text → Option (Text × ℕ)
fill_send_buffer W packet send_buffer =
    let size = byte_size W packet in
    let bytes = serialize W packet in
    if leb size msgsize then some (memcpy send_buffer bytes size, size) else none

-- What `send(sockClient, sendBuffer, Size, 0)` sends.
abbrev pub notify_bytes : Text → ℕ → Text
notify_bytes send_buffer size = take size send_buffer

-- A whole text that is copied, and the destination behind it.
module _ (t old : Text) where
  memcpy_lem : memcpy old t (length t) ≡ t ++ drop (length t) old
  memcpy_lem = ap (λ s. s ++ drop (length t) old) (take-length t)

  take-memcpy : take (length t) (memcpy old t (length t)) ≡ t
  take-memcpy = ap (take (length t)) memcpy_lem ∙ take-append t (drop (length t) old)

  drop-memcpy : drop (length t) (memcpy old t (length t)) ≡ drop (length t) old
  drop-memcpy = ap (drop (length t)) memcpy_lem ∙ drop-append t (drop (length t) old)

  length-memcpy : length t ≤ length old → length (memcpy old t (length t)) ≡ length old
  length-memcpy fits = omega (
    arith,
    fits,
    ap length memcpy_lem,
    length-append t (drop (length t) old),
    length-drop (length t) old,
  )

module _ (W : Coded) (laws : Lawful W) where
  -- Where the runtime of protobuf reads back what it writes and reports its sizes: a reply whose numbers
  -- are words, whose texts and nested messages are short enough for their lengths, and that keeps no
  -- unknown fields, is sent as it was serialised, whatever was in the 8192 bytes of sendBuffer before,
  -- if its serialisation has 8192 bytes at most; behind it the array keeps its contents. Of a longer
  -- one, the copy leaves the array.
  pub fill_send_buffer-sends :
      (b : Message W.Unknown) (old : Text)
      → Fits W b
      → length old ≡ msgsize
      → ((length (serialize W b) ≤ msgsize)
          × ((buffer : Text) × (size : ℕ) × (fill_send_buffer W b old ≡ some (buffer, size))
              × (notify_bytes buffer size ≡ serialize W b)
              × (drop size buffer ≡ drop size old)
              × (length buffer ≡ msgsize)))
        ⊎ ((msgsize < length (serialize W b)) × (fill_send_buffer W b old ≡ none))
  unfolding fill_send_buffer serialize
  fill_send_buffer-sends b old ok whole =
      let t = serialize W b in
      let sized = sym (length-serialize W laws b ok) in
      elim (Bool-cases (leb (length t) msgsize)) [
        | inl fits ↦
            let short : length t ≤ msgsize = ground arith in
            inl (
              short,
              (
                memcpy old t (length t),
                length t,
                rw (sized, fits),
                take-memcpy t old,
                drop-memcpy t old,
                length-memcpy t old (omega arith) ∙ whole,
              ),
            )
        | inr long ↦ inr (ground arith, rw (sized, long))
      ]
