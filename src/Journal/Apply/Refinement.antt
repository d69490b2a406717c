-- ===== src/Journal/Apply/Refinement.antt =====
-- The tables of internal/journal/apply.go against Fold of internal/journal/diff/fold.go.
use glovebox.Prelude.{◌≡◌, refl, List, In, All, Bytes}
use glovebox.Journal.Diff.Types.{NormRecord}
use glovebox.Journal.Diff.Events.{Proper, DistinctKeys}
use glovebox.Journal.Fold.{Identity, Rename, find_row, fold, fold_from}
use glovebox.Journal.Apply.Types.{Normalized, Store, empty_store, Services}
use glovebox.Journal.Apply.Agrees.{Consistent, Agrees, replayed}
use glovebox.Journal.Apply.Refines.{write_plan-Consistent}
use glovebox.Journal.Apply.Serve.{Request, Call, serve_all, plan_of, diff_input, source_of}
use glovebox.Journal.Apply.Sequences.{AllowedCall, written_plan, serve_all_keeps}

-- A snapshot as its validation leaves it: distinct keys, the fields of a record a map without
-- null, and of a type whose active version renames nothing.
abbrev pub Valid : Rename → Services → Normalized → Type 0
Valid rename s n =
    DistinctKeys n.records
    × ((r : NormRecord) → In r n.records → Proper r.fields)
    × ((k : Bytes) → rename n.record_type.name n.record_type.schema_version k ≡ k)

written_plan-Consistent :
    (rename : Rename) (s : Services) (st : Store) (n : Normalized) (req : Request)
    → Valid rename s n
    → Consistent rename st
    → Consistent rename (written_plan s st n req)
unfolding plan_of
written_plan-Consistent rename s st n req v inv =
    write_plan-Consistent rename s n.record_type n.subject (source_of s n req) s.date_text st
      (diff_input s st n) v.2 refl v.0 v.1 inv

empty_store-Consistent : (rename : Rename) → Consistent rename empty_store
unfolding fold fold_from find_row
empty_store-Consistent rename = (λ i. tt, λ i r q. absurd (cc q))

-- Whatever snapshots are sent, confirmed and discarded, with whatever configurations: every stored row
-- is the replay of the stored events, in its scope, audience, removal and every field, nil and empty
-- values taken as equal; and a row that is not stored is not replayed either. The snapshots are valid.
pub serve_all-Agrees :
    (rename : Rename) (cs : List Call) (i : Identity)
    → All (AllowedCall (Valid rename)) cs
    → let st = serve_all empty_store cs in
      Agrees (find_row st.rows i) (find_row (replayed rename st) i)
serve_all-Agrees rename cs i valid =
    (serve_all_keeps (Consistent rename) (Valid rename) (λ st row f p. p)
        (λ st id status stats r f h p. p) (λ st type scope at p. p) (written_plan-Consistent rename)
        empty_store cs valid (empty_store-Consistent rename)).0
      i
