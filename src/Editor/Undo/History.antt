-- ===== src/Editor/Undo/History.antt =====
-- Undo and redo of src/app/ui/text_buffer.rs as moves along one history.
use personal_productivity_ai.Common.{
  ◌≢◌, ◌==◌, ℕ, ◌+◌, ◌-◌, ◌≤◌, ◌<◌, ◌≡◌, refl, ap, ◌∙◌, inl, inr, false, Option, none, some, List,
  [], ◌∷◌, ◌++◌, length, take, drop, get_elem?, length-append, length-take, length-drop, ltb, arith,
  Bool-cases, get_elem?-set_self, lt_of_get_elem?, get_elem?-append_right, get_elem?-append_left,
  get_elem?-drop, get_elem?-take_lt,
}
use personal_productivity_ai.Common.Text.{text_eq, text_eq→eq}
use personal_productivity_ai.Editor.Undo.{
  UndoEntry, UndoStack, entry_at, current, without_redo, push_entry, evict, push_over, push, undo,
  redo,
}
use personal_productivity_ai.Editor.Undo.Bounds.{IsHistory}

-- The last element of what a full stack keeps is the one that was pushed.
last_kept :
    (xs : List UndoEntry) (e : UndoEntry) (k : ℕ)
    → k ≤ length xs
    → get_elem? (drop k (xs ++ e ∷ [])) (length xs - k) ≡ some e
last_kept xs e k h =
    get_elem?-drop k (length xs - k) (xs ++ e ∷ [])
    ∙ ap (get_elem? (xs ++ e ∷ [])) {x = k + (length xs - k)} {y = length xs + 0} (omega arith)
    ∙ get_elem?-append_right xs (e ∷ []) 0

before_last :
    (xs : List UndoEntry) (e : UndoEntry) (k : ℕ)
    → k < length xs
    → get_elem? (drop k (xs ++ e ∷ [])) (length xs - k - 1) ≡ get_elem? xs (length xs - 1)
before_last xs e k h =
    get_elem?-drop k (length xs - k - 1) (xs ++ e ∷ [])
    ∙ ap (get_elem? (xs ++ e ∷ [])) {x = k + (length xs - k - 1)} {y = length xs - 1} (omega arith)
    ∙ get_elem?-append_left xs (e ∷ []) (length xs - 1) (omega arith)

evict-eq-drop : (n : ℕ) (es : List UndoEntry) → evict n es ≡ drop (length es - n) es
unfolding evict
evict-eq-drop n es = elim (Bool-cases (ltb n (length es))) [
  | inl e ↦ rw e
  | inr e ↦ rw e (ap (λ k. drop k es) {x = 0} (ground (arith, e)))
]

-- What `push_entry` leaves, with the eviction as a drop.
push_entry_lem :
    (s : UndoStack) (e : UndoEntry)
    → let xs = without_redo s.entries s.position in
      push_entry s e ≡ record s {
        entries = drop (length xs + 1 - s.capacity) (xs ++ e ∷ []);
        position = some (length xs - (length xs + 1 - s.capacity));
      }
unfolding push_entry
push_entry_lem s e =
    let xs = without_redo s.entries s.position in
    let ys = xs ++ e ∷ [] in
    let n = length-append xs (e ∷ []) in
    let k = length xs + 1 - s.capacity in
    let p : evict s.capacity ys ≡ drop k ys =
      evict-eq-drop s.capacity ys
      ∙ ap (λ j. drop j ys) {x = length ys - s.capacity} (omega (arith, n)) in
    let q : length (evict s.capacity ys) - 1 ≡ length xs - k =
      rw p (omega (arith, n, length-drop k ys)) in
    λ i. record s { entries = p i; position = some (q i) }

current-push_entry :
    (s : UndoStack) (e : UndoEntry) → 1 ≤ s.capacity → current (push_entry s e) ≡ some e
current-push_entry s e r =
    let xs = without_redo s.entries s.position in
    rw push_entry_lem (last_kept xs e (length xs + 1 - s.capacity) (omega arith))

-- After a push the current entry is the one pushed, coalesced with the one before or not.
pub current-push : (s : UndoStack) (e : UndoEntry) → IsHistory s → current (push s e) ≡ some e
unfolding push
current-push s e v = over s.position (current s) refl refl
  where
    over :
        (p : Option ℕ) (c : Option UndoEntry)
        → s.position ≡ p
        → entry_at s.entries p ≡ c
        → current (push_over s e p c) ≡ some e
    over none c h k = current-push_entry s e v.room
    over (some pos) none h k = current-push_entry s e v.room
    over (some pos) (some c) h k = elim (Bool-cases (text_eq c.content e.content)) [
      | inl same ↦
          rw (same, h)
            (get_elem?-set_self s.entries pos (record e { content = c.content })
                (lt_of_get_elem? s.entries pos c k)
              ∙ ap (λ t. some (record e { content = t })) (text_eq→eq _ _ same))
      | inr other ↦ rw other (current-push_entry s e v.room)
    ]

push-eq-push_entry :
    (s : UndoStack) (e c : UndoEntry)
    → current s ≡ some c
    → c.content ≢ e.content
    → push s e ≡ push_entry s e
unfolding push
push-eq-push_entry s e c now differs = over s.position (current s) now
  where
    over : (p : Option ℕ) (d : Option UndoEntry) → d ≡ some c → push_over s e p d ≡ push_entry s e
    over none d h = refl
    over (some pos) none h = refl
    over (some pos) (some d) h = ground (arith, text_eq→eq c.content e.content, differs)

length-done :
    (s : UndoStack) (c : UndoEntry)
    → current s ≡ some c
    → let xs = without_redo s.entries s.position in
      (1 ≤ length xs) × (get_elem? xs (length xs - 1) ≡ some c)
length-done s c now = at s.position now
  where
    at :
        (p : Option ℕ)
        → entry_at s.entries p ≡ some c
        → let xs = without_redo s.entries p in
          (1 ≤ length xs) × (get_elem? xs (length xs - 1) ≡ some c)
    at none h = cc
    at (some pos) h =
        let n = length-take (pos + 1) s.entries in
        let l = lt_of_get_elem? s.entries pos c h in
        (
          omega (arith, n, l),
          ap (get_elem? (take (pos + 1) s.entries)) {y = pos} (omega (arith, n, l))
              ∙ get_elem?-take_lt (pos + 1) pos s.entries (omega arith)
              ∙ h,
        )

-- A push of new content can be undone, where the stack has room for two entries: the undo returns
-- the entry that was current, also when the push evicted the oldest entry.
pub undo-push :
    (s : UndoStack) (e c : UndoEntry)
    → 2 ≤ s.capacity
    → current s ≡ some c
    → c.content ≢ e.content
    → (undo (push s e)).1 ≡ some c
unfolding undo
undo-push s e c room now differs =
    let xs = without_redo s.entries s.position in
    let d = length-done s c now in
    let k = length xs + 1 - s.capacity in
    rw (push-eq-push_entry s e c now differs, push_entry_lem)
      (let z : (length xs - k == 0) ≡ false = ground (arith, d.0) in
        rw z (before_last xs e k (omega (arith, d.0)) ∙ d.1))

-- A successful undo is reversed by a redo, which restores the stack and returns the entry left.
pub redo-undo :
    (s t : UndoStack) (e : UndoEntry) → IsHistory s → undo s ≡ (t, some e) → redo t ≡ (s, current s)
unfolding undo redo
redo-undo s t e v h = ground (arith, v.placed)
