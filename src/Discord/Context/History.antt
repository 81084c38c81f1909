-- ===== src/Discord/Context/History.antt =====
-- What a conversation of src/app/integrations/discord/context.rs remembers.
use personal_productivity_ai.Common.{
  ℕ, zero, suc, ◌+◌, ◌-◌, ◌≤◌, ◌≡◌, refl, ap, sym, ◌∙◌, subst, inl, inr, false, Option, none, some,
  List, [], ◌∷◌, ◌++◌, append_assoc, append-nil, map, length, length-append, length-drop, drop,
  drop_nil, ltb, arith, Bool-cases, if◌then◌else◌,
}
use personal_productivity_ai.Common.Text.{Text, text_eq, text_eq→eq, text_eq_self}
use personal_productivity_ai.Common.Dict.{lookup, lookup-insert, lookup-insert_other}
use personal_productivity_ai.Discord.Context.{
  Message, ConversationContext, DiscordContext, new, new_context, or_new, trim_history,
  push_message, add_message, spoken, prompt_messages, context_messages, get_messages_for_llm,
  Arrival, add_messages,
}

-- The last `max` elements of a list.
abbrev pub last_of {ℓ} : {A : Type ℓ} → ℕ → List A → List A
last_of max xs = drop (length xs - max) xs

abbrev messages_of : Option ConversationContext → List Message
messages_of none = []
messages_of (some ctx) = ctx.messages

trim_history-eq : (max : ℕ) (ms : List Message) → trim_history max ms ≡ last_of max ms
unfolding trim_history
trim_history-eq max ms = elim (Bool-cases (ltb max (length ms))) [
  | inl e ↦ rw e refl
  | inr e ↦ let z : length ms - max ≡ 0 = ground (arith, e) in rw (e, z) refl
]

drop-append_le :
    {A : Type 0} (n : ℕ) (xs ys : List A) → n ≤ length xs → drop n (xs ++ ys) ≡ drop n xs ++ ys
drop-append_le zero xs ys h = refl
drop-append_le (suc n) [] ys h = absurd (omega arith)
drop-append_le (suc n) (x ∷ xs) ys h = drop-append_le n xs ys (omega arith)

drop-drop : {A : Type 0} (n m : ℕ) (xs : List A) → drop n (drop m xs) ≡ drop (m + n) xs
drop-drop n zero xs = ap (λ k. drop k xs) (omega arith)
drop-drop n (suc m) [] = drop_nil n ∙ sym (drop_nil (suc m + n))
drop-drop n (suc m) (x ∷ xs) =
    drop-drop n m xs ∙ ap (λ k. drop k (x ∷ xs)) {x = suc (m + n)} (omega arith)

-- What the arrivals say in a scope.
unfoldable pub said_in : Text → List Arrival → List Message
unfolding text_eq
said_in scope [] = []
said_in scope (a ∷ arrivals) =
    let rest = said_in scope arrivals in
    let message : Message = record { role = a.role; content = a.content; timestamp = a.now } in
    if text_eq (a.scope_id) scope then message ∷ rest else rest

last_of-last_of :
    {A : Type 0} (max : ℕ) (xs ys : List A)
    → last_of max (last_of max xs ++ ys) ≡ last_of max (xs ++ ys)
last_of-last_of max xs ys =
    let k = length xs - max in
    let e = sym (drop-append_le k xs ys (omega arith)) in
    ap (last_of max) e
    ∙ drop-drop (length (drop k (xs ++ ys)) - max) k (xs ++ ys)
    ∙ ap (λ n. drop n (xs ++ ys)) (omega (arith, length-drop k (xs ++ ys), length-append xs ys))

length-last_of : {A : Type 0} (max : ℕ) (xs : List A) → length (last_of max xs) ≤ max
length-last_of max xs = omega (arith, length-drop (length xs - max) xs)

-- The messages of a scope after `add_message`.
messages-or_new :
    (id now : ℕ) (scope : Text) (o : Option ConversationContext)
    → (or_new (new_context id now scope) o).messages ≡ messages_of o
unfolding new_context
messages-or_new id now scope none = refl
messages-or_new id now scope (some ctx) = refl

abbrev arrived : Arrival → Message
arrived a = record { role = a.role; content = a.content; timestamp = a.now }

abbrev add : Arrival → DiscordContext → DiscordContext
add a d = add_message (a.id) (a.now) (a.scope_id) (a.role) (a.content) d

add_own :
    (a : Arrival) (d : DiscordContext)
    → messages_of (lookup (a.scope_id) ((add a d).contexts))
      ≡ last_of (d.max_history) (messages_of (lookup (a.scope_id) (d.contexts)) ++ arrived a ∷ [])
unfolding add_message push_message
add_own a d =
    let ctx = or_new (new_context (a.id) (a.now) (a.scope_id)) (lookup (a.scope_id) (d.contexts)) in
    ap messages_of (
      lookup-insert (a.scope_id) (a.scope_id) (push_message (d.max_history) (a.now) (arrived a) ctx)
        (d.contexts))
    ∙ ap
        (λ b. messages_of (
          if b
          then some (push_message (d.max_history) (a.now) (arrived a) ctx)
          else lookup (a.scope_id) (d.contexts)))
        (text_eq_self (a.scope_id))
    ∙ trim_history-eq (d.max_history) (ctx.messages ++ arrived a ∷ [])
    ∙ ap (λ ms. last_of (d.max_history) (ms ++ arrived a ∷ []))
        (messages-or_new (a.id) (a.now) (a.scope_id) (lookup (a.scope_id) (d.contexts)))

add_other :
    (scope : Text) (a : Arrival) (d : DiscordContext)
    → text_eq (a.scope_id) scope ≡ false
    → messages_of (lookup scope ((add a d).contexts)) ≡ messages_of (lookup scope (d.contexts))
unfolding add_message
add_other scope a d h = ap messages_of (lookup-insert_other (a.scope_id) scope _ (d.contexts) h)

messages-add_messages :
    (scope : Text) (arrivals : List Arrival) (d : DiscordContext)
    → length (messages_of (lookup scope (d.contexts))) ≤ d.max_history
    → messages_of (lookup scope ((add_messages arrivals d).contexts))
      ≡ last_of (d.max_history) (messages_of (lookup scope (d.contexts)) ++ said_in scope arrivals)
unfolding add_messages said_in add_message
messages-add_messages scope [] d h =
    let ms = messages_of (lookup scope (d.contexts)) in
    let z : length ms - d.max_history ≡ 0 = omega arith in
    sym (ap (last_of (d.max_history)) (append-nil ms) ∙ ap (λ k. drop k ms) z)
messages-add_messages scope (a ∷ arrivals) d h = elim (Bool-cases (text_eq (a.scope_id) scope)) [
  | inl e ↦
      let own =
        subst
          (λ s.
            messages_of (lookup s ((add a d).contexts))
            ≡ last_of (d.max_history) (messages_of (lookup s (d.contexts)) ++ arrived a ∷ []))
          (text_eq→eq (a.scope_id) scope e) (add_own a d) in
      let ms = messages_of (lookup scope (d.contexts)) in
      let rest = said_in scope arrivals in
      messages-add_messages scope arrivals (add a d) (
        subst (λ xs. length xs ≤ d.max_history) (sym own)
          (length-last_of (d.max_history) (ms ++ arrived a ∷ [])))
      ∙ ap (λ xs. last_of (d.max_history) (xs ++ rest)) own
      ∙ last_of-last_of (d.max_history) (ms ++ arrived a ∷ []) rest
      ∙ ap (last_of (d.max_history)) (append_assoc ms (arrived a ∷ []) rest)
      ∙ ap (λ b. last_of (d.max_history) (ms ++ (if b then arrived a ∷ rest else rest))) (sym e)
  | inr e ↦
      (messages-add_messages scope arrivals (add a d)
          (subst (λ ms. length ms ≤ d.max_history) (sym (add_other scope a d e)) h)
        ∙ ap (λ ms. last_of (d.max_history) (ms ++ said_in scope arrivals)) (add_other scope a d e)
        ∙ ap
            (λ b. last_of (d.max_history) (
              messages_of (lookup scope (d.contexts))
              ++ (if b then arrived a ∷ said_in scope arrivals else said_in scope arrivals)))
            (sym e))
]

context_messages-eq :
    (o : Option ConversationContext) → context_messages o ≡ map spoken (messages_of o)
context_messages-eq none = refl
context_messages-eq (some ctx) = refl

-- After any run of messages to a new manager, the messages for a model are the system prompt, if
-- there is one, and the last `max_history` messages of that scope, oldest first, whatever came to
-- other scopes in between.
pub get_messages_for_llm-add_messages :
    (scope : Text) (prompt : Option Text) (max ttl : ℕ) (arrivals : List Arrival)
    → get_messages_for_llm scope prompt (add_messages arrivals (new max ttl))
      ≡ prompt_messages prompt ++ map spoken (last_of max (said_in scope arrivals))
unfolding get_messages_for_llm new lookup
get_messages_for_llm-add_messages scope prompt max ttl arrivals =
    ap (λ xs. prompt_messages prompt ++ xs)
      (context_messages-eq (lookup scope ((add_messages arrivals (new max ttl)).contexts))
        ∙ ap (map spoken) (messages-add_messages scope arrivals (new max ttl) (omega arith)))
