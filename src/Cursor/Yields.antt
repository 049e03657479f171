-- ===== src/Cursor/Yields.antt =====
-- What a merged cursor yields (storage/cursor.rs).
use searchnos_db.Prelude.{
  ℕ, zero, suc, ◌<◌, Option, List, [], ◌∷◌, Result, ok, ◌≡◌, refl, subst, sym, ap, ◌∙◌, arith,
  length,
}
use searchnos_db.Event.{EventPacket}
use searchnos_db.Cursor.{MergedSource, next_merged_packet}
use searchnos_db.Cursor.Choice.{Each, head_of}
use searchnos_db.Cursor.Heads.{merge_all}
use searchnos_db.Cursor.Merged.{Holds, IsSilent, Yields, left, next_merged_packet-Advances, tail_of}

module _ {S : Type 0} (next : S → S × Result (Option EventPacket)) (fuel : ℕ) where
  merged-IsSilent :
      (n : ℕ) (m : MergedSource S) (lists : List (List EventPacket))
      → Each (Holds next) m.cursors lists
      → length (merge_all lists) < fuel
      → left next m lists ≡ []
      → IsSilent (next_merged_packet next fuel) n m
  merged-IsSilent zero m lists h enough e = tt
  merged-IsSilent (suc n) m lists h enough e =
      let a = next_merged_packet-Advances next fuel m lists h enough in
      (
        ap (λ (x : MergedSource S × Result (Option EventPacket)). x.1) a.result
            ∙ ap (λ l. ok (head_of l)) e,
        subst (IsSilent (next_merged_packet next fuel) n)
            (sym (ap (λ (x : MergedSource S × Result (Option EventPacket)). x.0) a.result))
            (merged-IsSilent n a.source a.lists_left a.holds (omega (arith, a.shorter))
              (a.rest ∙ ap tail_of e)),
      )

  merged-Yields_all :
      (packets : List EventPacket) (m : MergedSource S) (lists : List (List EventPacket))
      → Each (Holds next) m.cursors lists
      → length (merge_all lists) < fuel
      → left next m lists ≡ packets
      → Yields (next_merged_packet next fuel) m packets
  merged-Yields_all [] m lists h enough e = λ n. merged-IsSilent n m lists h enough e
  merged-Yields_all (p ∷ packets) m lists h enough e =
      let a = next_merged_packet-Advances next fuel m lists h enough in
      (
        a.source,
        a.result ∙ ap (λ l. (a.source, ok (head_of l))) e,
        merged-Yields_all packets a.source a.lists_left a.holds (omega (arith, a.shorter))
            (a.rest ∙ ap tail_of e),
      )

  -- A merge of cursors yields the stable merge of what they yield, without the packets whose
  -- identifier it has seen before, up to its limit, if the fuel exceeds the number of packets.
  pub next_merged_packet-Yields :
      (m : MergedSource S) (lists : List (List EventPacket))
      → Each (Holds next) m.cursors lists
      → length (merge_all lists) < fuel
      → Yields (next_merged_packet next fuel) m (left next m lists)
  next_merged_packet-Yields m lists h enough =
      merged-Yields_all (left next m lists) m lists h enough refl
