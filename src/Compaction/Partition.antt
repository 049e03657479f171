-- ===== src/Compaction/Partition.antt =====
-- A partition after compaction: the file reads as the sorted merge of what was there and what
-- came, and the sidecar and the summary are those of the packets in the file.
use mathlib.Core.List.{Perm, append_assoc, append-nil}
use mathlib.Core.List.Perm
use searchnos_db.Prelude.{
  Bytes, Option, none, some, List, [], ◌∷◌, ◌++◌, ok, ◌≡◌, refl, sym, ◌∙◌, ap, arith, All,
  fold_result, fold_result-eq-ok, >>=-eq-ok,
}
use searchnos_db.Note.{Ndb}
use searchnos_db.Event.{EventPacket, from_data}
use searchnos_db.Event.Frame.{write_packet, read_event_packets}
use searchnos_db.Event.Frame.RoundTrip.{write_packets, AreDecoded, read_event_packets-write_packets}
use searchnos_db.Event.Frame.Decoded.{read_event_packets-AreDecoded}
use searchnos_db.Query.{sort_packets}
use searchnos_db.Query.Order.{IsSorted, All-insert_packet, sort_packets-IsSorted, sort_packets-perm}
use searchnos_db.Search.Index.{
  Texts, empty_search_index, append_to_search_index, append_packets, append_packet,
}
use searchnos_db.Visibility.Summary.{add_packet, summary_from_packets}
use searchnos_db.Compaction.{
  Output, write_merged_packet, empty_output, existing_packets, merge_packets_into_partition,
  merge_packets,
}
use searchnos_db.Compaction.Merge.{merge_packets-IsSorted, merge_packets-perm, All-merge_packets}

module _ {ℓ} {Bloom : Type ℓ} (ndb : Ndb) (texts : Texts Bloom) where
  -- One packet adds its frame, its text and what it says of visibility.
  pub record Extends (o : Output Bloom) (packets : List EventPacket) (n : Output Bloom)
      : Type ℓ where
    pub written : Bytes
    pub frames : write_packets packets ≡ ok written
    pub partition : n.partition ≡ o.partition ++ written
    pub search_index : append_packets texts o.search_index packets ≡ ok n.search_index
    pub summary :
        fold_result (add_packet ndb) o.visibility_summary packets ≡ ok n.visibility_summary

  write_merged_packet-eq-ok :
      (o n : Output Bloom) (p : EventPacket)
      → write_merged_packet ndb texts o p ≡ ok n
      → (frame : Bytes) × (write_packet p.payload ≡ ok frame)
        × (n.partition ≡ o.partition ++ frame)
        × (append_packet texts o.search_index p ≡ ok n.search_index)
        × (add_packet ndb o.visibility_summary p ≡ ok n.visibility_summary)
  unfolding write_merged_packet
  write_merged_packet-eq-ok o n p h =
      let (frame, e, h') = >>=-eq-ok (write_packet p.payload) _ h in
      let (index, f, h'') =
        >>=-eq-ok (append_to_search_index texts o.search_index p.payload) _ h' in
      let (summary, g, done) = >>=-eq-ok (add_packet ndb o.visibility_summary p) _ h'' in
      let same : record {
        partition = o.partition ++ frame;
        search_index = index;
        visibility_summary = summary;
      }
          ≡ n =
        cc in
      (
        frame,
        e,
        ap (λ (x : Output Bloom). x.partition) (sym same),
        f ∙ ap (λ (x : Output Bloom). ok x.search_index) same,
        g ∙ ap (λ (x : Output Bloom). ok x.visibility_summary) same,
      )

  pub Extends-merged :
      (o n : Output Bloom) (packets : List EventPacket)
      → fold_result (write_merged_packet ndb texts) o packets ≡ ok n
      → Extends o packets n
  unfolding write_packets append_packets
  Extends-merged o n [] h =
      let same : o ≡ n = cc in
      record {
        written = [];
        frames = refl;
        partition = rw (← same) (sym (append-nil o.partition));
        search_index = rw same;
        summary = rw same;
      }
  Extends-merged o n (p ∷ packets) h =
      let (m, step, rest) = fold_result-eq-ok (write_merged_packet ndb texts) o p packets h in
      let (frame, e, f, g, k) = write_merged_packet-eq-ok o m p step in
      let ih = Extends-merged m n packets rest in
      record {
        written = frame ++ ih.written;
        frames = rw e (rw ih.frames);
        partition = ih.partition ∙ rw f (append_assoc o.partition frame ih.written);
        search_index = rw (g, fold_result) ih.search_index;
        summary = rw (k, fold_result) ih.summary;
      }

  existing-AreDecoded :
      (file : Option Bytes) (packets : List EventPacket)
      → existing_packets ndb file ≡ ok packets
      → AreDecoded ndb packets
  unfolding existing_packets
  existing-AreDecoded none packets h = let e : [] ≡ packets = cc in rw (← e) tt
  existing-AreDecoded (some file) packets h = read_event_packets-AreDecoded ndb file packets h

  -- What a compaction of one day leaves: a file that reads as a sorted permutation of the old
  -- and the new packets, with the sidecar and the summary of these packets.
  pub record IsMerge (existing new_packets : List EventPacket) (o : Output Bloom) : Type ℓ where
    pub packets : List EventPacket
    pub file : read_event_packets ndb o.partition ≡ ok packets
    pub sorted : IsSorted packets
    pub perm : Perm packets (existing ++ new_packets)
    pub sidecar : append_packets texts (empty_search_index texts) packets ≡ ok o.search_index
    pub summary : summary_from_packets ndb packets ≡ ok o.visibility_summary

  All-sort_packets :
      (P : EventPacket → Type 0) (packets : List EventPacket)
      → All P packets
      → All P (sort_packets packets)
  unfolding sort_packets
  All-sort_packets P [] h = h
  All-sort_packets P (p ∷ packets) h =
      All-insert_packet P p (sort_packets packets) h.0 (All-sort_packets P packets h.1)

  -- A compaction of one day that succeeds leaves a partition file that reads as a sorted
  -- permutation of the packets that were in it, if it was sorted, and of the new ones, with the
  -- sidecar and the summary of the packets in the file.
  pub merge_packets_into_partition-IsMerge :
      (file : Option Bytes) (existing new_packets : List EventPacket) (o : Output Bloom)
      → existing_packets ndb file ≡ ok existing
      → IsSorted existing
      → AreDecoded ndb new_packets
      → merge_packets_into_partition ndb texts file new_packets ≡ ok o
      → IsMerge existing new_packets o
  unfolding merge_packets_into_partition summary_from_packets
  merge_packets_into_partition-IsMerge file existing new_packets o e sorted decoded h =
      let merged = merge_packets existing (sort_packets new_packets) in
      let x = Extends-merged (empty_output ndb texts) o merged (rw e at h) in
      let all =
        All-merge_packets (λ p. from_data ndb p.payload ≡ ok p) existing (sort_packets new_packets)
          (existing-AreDecoded file existing e)
          (All-sort_packets (λ p. from_data ndb p.payload ≡ ok p) new_packets decoded) in
      record {
        packets = merged;
        file = rw x.partition (
            rw (← append-nil x.written) (
              read_event_packets-write_packets ndb merged x.written [] all x.frames (omega arith)));
        sorted =
            merge_packets-IsSorted existing (sort_packets new_packets) sorted
              (sort_packets-IsSorted new_packets);
        perm =
            Perm.trans (merge_packets-perm existing (sort_packets new_packets))
              (Perm.append (Perm.refl existing) (sort_packets-perm new_packets));
        sidecar = x.search_index;
        summary = x.summary;
      }
