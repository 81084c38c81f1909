-- ===== src/Agent/Turn/Answers.antt =====
-- Which tool calls are answered, and in which order: src/agent/agent_impl.rs
use personal_productivity_ai.Common.{
  ◌≡◌, refl, ap, sym, ◌∙◌, subst, inl, inr, Bool, true, false, ◌||◌, Option, none, some, List, [],
  ◌∷◌, map, arith, Bool-cases, if◌then◌else◌,
}
use personal_productivity_ai.Common.Text.{
  Text, codes, text_eq, text_eq→eq, text_eq_iff, text_eq_self,
}
use personal_productivity_ai.Common.Dict.{
  Dict, lookup, insert, remove, lookup-insert, lookup-remove,
}
use personal_productivity_ai.Common.Reorder.{Reordering, map-reorder, reorder_sym}
use personal_productivity_ai.Agent.Json.{Json, get_str, unwrap_or}
use personal_productivity_ai.Agent.Executor.{ToolCallRecord}
use personal_productivity_ai.Agent.Turn.{
  call_id_of, record_map, answered, answer_calls, process_tool_results, tool_message,
}

-- Whether an id is among the ids.
unfoldable pub has_id : Text → List Text → Bool
unfolding text_eq
has_id k [] = false
has_id k (i ∷ ids) = text_eq i k || has_id k ids

abbrev pub IsDistinct : List Text → Type 0
IsDistinct [] = Unit
IsDistinct (i ∷ ids) = (has_id i ids ≡ false) × IsDistinct ids

abbrev pub record_ids : List ToolCallRecord → List Text
record_ids results = map (λ r. r.call_id) results

-- The first record of an id.
unfoldable find_record : Text → List ToolCallRecord → Option ToolCallRecord
unfolding text_eq
find_record k [] = none
find_record k (r ∷ results) = if text_eq (r.call_id) k then some r else find_record k results

abbrev or_else : Option ToolCallRecord → Option ToolCallRecord → Option ToolCallRecord
or_else none b = b
or_else (some a) b = some a

other_id :
    (i k : Text) (ids : List Text)
    → has_id i ids ≡ false
    → has_id k ids ≡ true
    → text_eq i k ≡ false
other_id i k ids h y = elim (Bool-cases (text_eq i k)) [
  | inl e ↦ let z = subst (λ t. has_id t ids ≡ false) (text_eq→eq i k e) h in ground (arith, z, y)
  | inr e ↦ e
]

find_some :
    (k : Text) (results : List ToolCallRecord)
    → has_id k (record_ids results) ≡ true
    → (r : ToolCallRecord) × (find_record k results ≡ some r)
unfolding has_id find_record
find_some k [] h = ground (arith, h)
find_some k (r ∷ results) h = elim (Bool-cases (text_eq (r.call_id) k)) [
  | inl e ↦ (r, rw e refl)
  | inr e ↦ let (q, f) = find_some k results (ground (arith, h, e)) in (q, rw e f)
]

find_none :
    (k : Text) (results : List ToolCallRecord)
    → has_id k (record_ids results) ≡ false
    → find_record k results ≡ none
unfolding has_id find_record
find_none k [] h = refl
find_none k (r ∷ results) h = ground (arith, find_none k results)

-- Where the ids are distinct, the map gives the record of an id.
lookup-record_map :
    (k : Text) (results : List ToolCallRecord) (m : Dict ToolCallRecord)
    → IsDistinct (record_ids results)
    → lookup k (record_map m results) ≡ or_else (find_record k results) (lookup k m)
unfolding record_map find_record
lookup-record_map k [] m h = refl
lookup-record_map k (r ∷ results) m h =
    lookup-record_map k results (insert (r.call_id) r m) (h.1)
    ∙ ap (or_else (find_record k results)) (lookup-insert (r.call_id) k r m)
    ∙ elim (Bool-cases (text_eq (r.call_id) k)) [
      | inl e ↦
          let n =
            subst (λ i. find_record i results ≡ none) (text_eq→eq (r.call_id) k e)
              (find_none (r.call_id) results (h.0)) in
          rw (n, e) refl
      | inr e ↦ rw e refl
    ]

has_id-reorder : {ids js : List Text} (k : Text) → Reordering ids js → has_id k ids ≡ has_id k js
unfolding has_id
has_id-reorder k Reordering.nil = refl
has_id-reorder k (Reordering.cons e p) = ground (arith, has_id-reorder k p, ap (λ i. text_eq i k) e)
has_id-reorder k (Reordering.swap e f g) =
    ground (arith, ap (λ i. text_eq i k) e, ap (λ i. text_eq i k) f, ap (has_id k) g)
has_id-reorder k (Reordering.trans p q) = has_id-reorder k p ∙ has_id-reorder k q

IsDistinct-swap :
    (a b : Text) (ids : List Text) → IsDistinct (a ∷ b ∷ ids) → IsDistinct (b ∷ a ∷ ids)
unfolding has_id
IsDistinct-swap a b ids h =
    (ground (arith, h, text_eq_iff a b, text_eq_iff b a), (ground (arith, h), h.1.1))

IsDistinct-reorder : {ids js : List Text} → Reordering ids js → IsDistinct ids → IsDistinct js
unfolding has_id
IsDistinct-reorder Reordering.nil h = h
IsDistinct-reorder (Reordering.cons {a} {ys} e p) h = (
  subst (λ i. has_id i ys ≡ false) e (sym (has_id-reorder a p) ∙ h.0),
  IsDistinct-reorder p (h.1),
)
IsDistinct-reorder (Reordering.swap {a} {b} {c} {d} {xs} {ys} e f g) h =
    let q : (b ∷ a ∷ xs) ≡ (c ∷ d ∷ ys) = rw (e, f, g) refl in
    subst IsDistinct q (IsDistinct-swap a b xs h)
IsDistinct-reorder (Reordering.trans p q) h = IsDistinct-reorder q (IsDistinct-reorder p h)

find-swap :
    (k : Text) (a b : ToolCallRecord) (xs : List ToolCallRecord)
    → text_eq (b.call_id) (a.call_id) ≡ false
    → find_record k (a ∷ b ∷ xs) ≡ find_record k (b ∷ a ∷ xs)
unfolding find_record
find-swap k a b xs n = elim (Bool-cases (text_eq (a.call_id) k)) [
  | inl e ↦
      let h = subst (λ i. text_eq (b.call_id) i ≡ false) (text_eq→eq (a.call_id) k e) n in
      rw (e, h) refl
  | inr e ↦ rw e refl
]

find-reorder :
    {xs ys : List ToolCallRecord} (k : Text)
    → Reordering xs ys
    → IsDistinct (record_ids xs)
    → find_record k xs ≡ find_record k ys
unfolding find_record has_id
find-reorder k Reordering.nil h = refl
find-reorder k (Reordering.cons {b} {xs} e p) h =
    ap (λ r. find_record k (r ∷ xs)) e
    ∙ ap (λ rest. if text_eq (b.call_id) k then some b else rest) (find-reorder k p (h.1))
find-reorder k (Reordering.swap {a} {b} {c} {d} {xs} {ys} e f g) h =
    let q : (b ∷ a ∷ xs) ≡ (c ∷ d ∷ ys) = rw (e, f, g) refl in
    find-swap k a b xs (ground (arith, h)) ∙ ap (find_record k) q
find-reorder k (Reordering.trans p q) h =
    find-reorder k p h ∙ find-reorder k q (IsDistinct-reorder (map-reorder (λ r. r.call_id) p) h)

module _ (j : Json) where
  open j use {J}

  -- What answers the calls depends on the map only through its lookups.
  answer_calls-same :
      (m n : Dict ToolCallRecord) (calls : List J)
      → ((k : Text) → lookup k m ≡ lookup k n)
      → answer_calls j m calls ≡ answer_calls j n calls
  unfolding answer_calls call_id_of
  answer_calls-same m n [] h = refl
  answer_calls-same m n (tc ∷ calls) h =
      let cid = call_id_of j tc in
      let ih = answer_calls-same (remove cid m) (remove cid n) calls (λ k.
        lookup-remove cid k m
        ∙ ap (λ o. if text_eq cid k then none else o) (h k)
        ∙ sym (lookup-remove cid k n)) in
      ap (λ o. answered j cid o (answer_calls j (remove cid m) calls)) (h cid)
      ∙ ap (answered j cid (lookup cid n)) ih

  -- The order in which the records come does not matter, where the ids of their calls differ.
  pub process_tool_results-reorder :
      (xs ys : List ToolCallRecord) (calls : List J)
      → IsDistinct (record_ids xs)
      → Reordering xs ys
      → process_tool_results j xs calls ≡ process_tool_results j ys calls
  unfolding process_tool_results
  process_tool_results-reorder xs ys calls d p =
      answer_calls-same (record_map [] xs) (record_map [] ys) calls (λ k.
        lookup-record_map k xs [] d
        ∙ ap (λ o. or_else o (lookup k [])) (find-reorder k p d)
        ∙ sym (lookup-record_map k ys [] (IsDistinct-reorder (map-reorder (λ r. r.call_id) p) d)))

  unfoldable pub call_ids : List J → List Text
  unfolding call_id_of
  call_ids calls = map (call_id_of j) calls

  -- The call that a message answers.
  abbrev pub answers_to : J → Text
  answers_to message = unwrap_or [] (get_str j (codes "tool_call_id") message)

  answers_to-tool_message :
      (cid : Text) (r : ToolCallRecord) → answers_to (tool_message j cid r) ≡ cid
  unfolding tool_message lookup
  answers_to-tool_message cid r = rw (j.get-object, j.as_str-string) refl

  answer-all :
      (m : Dict ToolCallRecord) (calls : List J)
      → IsDistinct (call_ids calls)
      → ((k : Text)
          → has_id k (call_ids calls) ≡ true
          → (r : ToolCallRecord) × (lookup k m ≡ some r))
      → map answers_to ((answer_calls j m calls).0) ≡ call_ids calls
  unfolding answer_calls answered has_id call_ids
  answer-all m [] d h = refl
  answer-all m (tc ∷ calls) d h =
      let cid = call_id_of j tc in
      let (r, e) = h cid (ground (arith, text_eq_self cid)) in
      let ih = answer-all (remove cid m) calls (d.1) (λ k y.
        let (q, f) = h k (ground (arith, y)) in
        (q, lookup-remove cid k m ∙ rw (other_id cid k (call_ids calls) (d.0) y) f)) in
      ap (λ o. map answers_to (answered j cid o (answer_calls j (remove cid m) calls)).0) e
      ∙ rw (answers_to-tool_message cid r, ih) refl

  -- Where there is a record for each call, whose ids differ, the messages answer each call once, in
  -- the order of the calls.
  pub process_tool_results-answers :
      (results : List ToolCallRecord) (calls : List J)
      → IsDistinct (call_ids calls)
      → Reordering (record_ids results) (call_ids calls)
      → map answers_to ((process_tool_results j results calls).0) ≡ call_ids calls
  unfolding process_tool_results
  process_tool_results-answers results calls d p =
      answer-all (record_map [] results) calls d (λ k y.
        let (r, e) = find_some k results (has_id-reorder k p ∙ y) in
        (r, lookup-record_map k results [] (IsDistinct-reorder (reorder_sym p) d) ∙ rw e refl))
