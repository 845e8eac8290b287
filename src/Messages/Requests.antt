-- ===== src/Messages/Requests.antt =====
-- What the packets that clients write become: the way from their bytes to the scenes, through the
-- receive buffer and the parser (DNW_Server/Server: Server/Server.cpp, ClientEntity/ClientEntity.cpp).
use jira_game.Base.{
  Option, Text, [], ap, arith, insert, length, some, suc, sym, take, ℕ, ◌++◌, ◌<◌, ◌>>=◌, ◌∙◌, ◌∷◌,
  ◌≡◌,
}
use jira_game.Proto.{UnPacket}
use jira_game.Cache.{Entity, get_entity}
use jira_game.Db.Library.{Sqlite}
use jira_game.Scenes.{process_msg_logic}
use jira_game.Worker.{Site, bytes, handle, msgsize, rev_buffer}
use jira_game.Worker.Messages.{NoNul, handle-plain}
use jira_game.Messages.Coded.{Coded}
use jira_game.Messages.Coded.Laws.{Lawful}
use jira_game.Messages.Parser.{run_parser, whole}
use jira_game.Messages.Class.Codes.{parse-both, parse-serialize}
use jira_game.Messages.View.{parse_request, un_packet_of}
use jira_game.Messages.UnPacket as UnPacketClass
use jira_game.Messages.UnPacket.Format as UnPacketFormat

module _ (W : Coded) (laws : Lawful W) where
  -- Where the runtime of protobuf reads back what it writes: a packet whose numbers are words, whose
  -- texts and nested messages are short enough for their lengths, and that keeps no unknown fields is
  -- read back as it was written, and the parser reads it to its end.
  pub packet-parse :
      (b : UnPacketClass.Message W.Unknown)
      → UnPacketFormat.Fits W b
      → run_parser W (UnPacketClass.parser W) (UnPacketClass.serialize W b) (UnPacketClass.new W)
        ≡ (b, whole)
  packet-parse = parse-serialize W laws (UnPacketFormat.coded W laws)

  -- Two such packets in one piece of input are read as one packet, in which the fields of the second
  -- overwrite those of the first, nested messages are merged, and repeated ones follow each other.
  pub packets-parse :
      (a b : UnPacketClass.Message W.Unknown)
      → UnPacketFormat.Fits W a
      → UnPacketFormat.Fits W b
      → run_parser W
          (UnPacketClass.parser W)
          (UnPacketClass.serialize W a ++ UnPacketClass.serialize W b)
          (UnPacketClass.new W)
        ≡ (UnPacketClass.merge_from W a b, whole)
  packets-parse = parse-both W laws (UnPacketFormat.coded W laws)

  request-parse :
      (b : UnPacketClass.Message W.Unknown)
      → UnPacketFormat.Fits W b
      → parse_request W (UnPacketClass.serialize W b) ≡ un_packet_of W b
  unfolding parse_request
  request-parse b ok = ap (λ r. un_packet_of W r.0) (packet-parse b ok)

  requests-parse :
      (a b : UnPacketClass.Message W.Unknown)
      → UnPacketFormat.Fits W a
      → UnPacketFormat.Fits W b
      → parse_request W (UnPacketClass.serialize W a ++ UnPacketClass.serialize W b)
        ≡ un_packet_of W (UnPacketClass.merge_from W a b)
  unfolding parse_request
  requests-parse a b fits_a fits_b = ap (λ r. un_packet_of W r.0) (packets-parse a b fits_a fits_b)

-- The site after the scene of a packet has run, which came in some bytes.
abbrev pub handled :
    (W : Coded) (L : Sqlite)
    → (Text → Text → Text)
    → ℕ
    → ℕ
    → Entity
    → Text
    → UnPacket
    → Site L
    → Option (Site L)
handled W L strcpy_s fuel socket e t p st =
    process_msg_logic L fuel p.cur_scene e.sock_client p st.server.world st.db >>= λ (w, d).
    some (record {
      server = record st.server { world = w };
      db = d;
      rev_buffers =
          insert socket (strcpy_s (rev_buffer L strcpy_s (parse_request W) socket st) t)
            st.rev_buffers;
    })

module _ (W : Coded) (laws : Lawful W) (L : Sqlite) (strcpy_s : Text → Text → Text)
    (copies : (old t : Text)
      → length t < msgsize
      → take (suc (length t)) (strcpy_s old t) ≡ t ++ 0 ∷ [])
    (fuel i socket : ℕ) (st : Site L) (e : Entity)
    (known : get_entity socket st.server.world.cache ≡ some e) where
  received :
      (t : Text) (p : UnPacket)
      → parse_request W t ≡ p
      → NoNul t
      → 0 < length t
      → length t < msgsize
      → handle L strcpy_s (parse_request W) fuel i socket (bytes t) st
        ≡ handled W L strcpy_s fuel socket e t p st
  received [] p parsed plain some_bytes short = absurd (omega (arith, some_bytes))
  received (c ∷ u) p parsed plain some_bytes short =
      handle-plain L strcpy_s (parse_request W) fuel i socket st copies c u e plain short known
      ∙ ap (λ q. handled W L strcpy_s fuel socket e (c ∷ u) q st) parsed

  -- Where the runtime of protobuf reads back what it writes, and strcpy_s leaves a text that fits in at
  -- the front of the buffer: a packet whose numbers are words, whose texts and nested messages are
  -- short enough for their lengths, that keeps no unknown fields, and that takes fewer than 8192 bytes,
  -- one at least and none of them NUL, from a socket that has an entity, goes to the scene that it names
  -- with the requests that the client has set; but for what the scene does and the entity's receive
  -- buffer, the site stays as it is.
  pub handle-serialize :
      (b : UnPacketClass.Message W.Unknown)
      → UnPacketFormat.Fits W b
      → NoNul (UnPacketClass.serialize W b)
      → 0 < length (UnPacketClass.serialize W b)
      → length (UnPacketClass.serialize W b) < msgsize
      → handle L strcpy_s (parse_request W) fuel i socket (bytes (UnPacketClass.serialize W b)) st
        ≡ handled W L strcpy_s fuel socket e (UnPacketClass.serialize W b) (un_packet_of W b) st
  handle-serialize b ok = received (UnPacketClass.serialize W b) _ (request-parse W laws b ok)

  -- Where the runtime of protobuf reads back what it writes, and strcpy_s leaves a text that fits in at
  -- the front of the buffer: two packets whose numbers are words, whose texts and nested messages are
  -- short enough for their lengths, and that keep no unknown fields, which arrive in one call of recv
  -- from a socket that has an entity, and take together fewer than 8192 bytes, one at least and none of
  -- them NUL, reach one scene once, as the second merged into the first.
  pub handle-both :
      (a b : UnPacketClass.Message W.Unknown) (t : Text)
      → UnPacketFormat.Fits W a
      → UnPacketFormat.Fits W b
      → UnPacketClass.serialize W a ++ UnPacketClass.serialize W b ≡ t
      → NoNul t
      → 0 < length t
      → length t < msgsize
      → handle L strcpy_s (parse_request W) fuel i socket (bytes t) st
        ≡ handled W L strcpy_s fuel socket e t (un_packet_of W (UnPacketClass.merge_from W a b)) st
  handle-both a b t fits_a fits_b together =
      received t _ (ap (parse_request W) (sym together) ∙ requests-parse W laws a b fits_a fits_b)
