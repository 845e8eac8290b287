-- ===== src/Messages/KeepAliveMsg/Format.antt =====
-- A KeepAliveMsg that was written is read back, and has the size that is computed for it.
use jira_game.Base.{Text, arith, length, refl, subst, sym, ◌++◌, ◌∙◌, ◌≡◌}
use jira_game.Messages.Kit.{Coded, Ending, cur_scene, cur_scene_number}
use jira_game.Messages.Kit.Proofs.{
  Codes, Lawful, Merges, cur_scene_lem, end-Merges, enum-Merges, fresh-unknown, length-enum_part,
  length-unknown, length-written, over-none, written-append,
}
use jira_game.Messages.KeepAliveMsg.{
  Message, byte_size, class, merge_from, new, parser, parts, serialize,
}

-- Texts and nested messages are short enough for their lengths, numbers are words, and no unknown
-- fields are kept.
pub record Fits (W : Coded) (b : Message W.Unknown) : Type 0 where
  pub unknown : b.unknown ≡ W.no_fields

module _ (W : Coded) (laws : Lawful W) where
  merges :
      (b : Message W.Unknown)
      → Fits W b
      → (rest : Text) (m : Message W.Unknown) (r : Message W.Unknown × Ending)
      → Merges W (parser W) rest (merge_from W m b) r
      → Merges W (parser W) (serialize W b ++ rest) m r
  unfolding serialize merge_from
  merges b ok rest m r onward =
      subst (λ input. Merges W (parser W) input m r) (sym (written-append (parts W b) rest))
        (enum-Merges W laws (parser W) cur_scene_number cur_scene 1 _ b.cur_scene _ _ _
          cur_scene_lem (refl, refl) (λ m. refl)
          (end-Merges W laws (parser W) (merge_from W m b) m.unknown b.unknown rest r ok.unknown
            onward))

  fresh : (b : Message W.Unknown) → Fits W b → merge_from W (new W) b ≡ b
  unfolding merge_from
  fresh b ok = λ i. record {
    cur_scene = over-none b.cur_scene i;
    unknown = fresh-unknown W laws b.unknown ok.unknown i;
  }

  sized : (b : Message W.Unknown) → Fits W b → length (serialize W b) ≡ byte_size W b
  unfolding serialize byte_size
  sized b ok =
      length-written (parts W b)
      ∙ omega (
        arith,
        length-enum_part W laws cur_scene_number 1 1 b.cur_scene (λ e. (cur_scene_lem e).1)
            (refl, refl),
        length-unknown W laws b.unknown ok.unknown,
      )

  pub coded : Codes (class W) (Fits W)
  coded = record { merges = merges; fresh = fresh; sized = sized }
