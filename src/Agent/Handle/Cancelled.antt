-- ===== src/Agent/Handle/Cancelled.antt =====
-- Which prompts a cancel reaches: `cancel` and `submit_prompt` of src/agent/session.rs
use personal_productivity_ai.Common.{
  ◌≡◌, refl, sym, ap, ◌∙◌, ℕ, zero, suc, ◌+◌, Bool, true, false, Option, none, some, List, [], ◌∷◌,
  ◌++◌, length, length-append, get_elem?, arith,
}
use mathlib.Core.Option.{some-injective}
use personal_productivity_ai.Agent.Handle.{
  AgentSession, Prompt, Call, queues, takes, drops, forgets, cancels, uses, logs, submits,
  queue_prompt, take_next_queued_prompt, clear_queued_prompts, clear_history, cancel, stored,
  apply_token_usage, push_debug_entry, submit_prompt, build, call, calls,
}

abbrev pub set_last : List Bool → List Bool
set_last [] = []
set_last (b ∷ []) = true ∷ []
set_last (b ∷ c ∷ bs) = b ∷ set_last (c ∷ bs)

-- For each prompt that was submitted, whether it is cancelled: a cancel is for the last one.
unfoldable pub cancelled_by : {E R : Type 0} → List (Call E R) → List Bool → List Bool
cancelled_by [] bs = bs
cancelled_by (queues prompt ∷ cs) bs = cancelled_by cs bs
cancelled_by (takes ∷ cs) bs = cancelled_by cs bs
cancelled_by (drops ∷ cs) bs = cancelled_by cs bs
cancelled_by (forgets ∷ cs) bs = cancelled_by cs bs
cancelled_by (cancels ∷ cs) bs = cancelled_by cs (set_last bs)
cancelled_by (uses info ∷ cs) bs = cancelled_by cs bs
cancelled_by (logs entry ∷ cs) bs = cancelled_by cs bs
cancelled_by (submits prompt ∷ cs) bs = cancelled_by cs (bs ++ false ∷ [])

abbrev last_address : List Bool → Option ℕ
last_address [] = none
last_address (b ∷ bs) = some (length bs)

stored-set_last : (bs : List Bool) → stored (last_address bs) bs ≡ set_last bs
stored-set_last [] = refl
stored-set_last (b ∷ []) = refl
stored-set_last (b ∷ c ∷ bs) = ap (λ (l : List Bool). b ∷ l) (stored-set_last (c ∷ bs))

length-set_last : (l : List Bool) → length (set_last l) ≡ length l
length-set_last [] = refl
length-set_last (d ∷ []) = refl
length-set_last (d ∷ e ∷ l) = ap suc (length-set_last (e ∷ l))

last_address-set_last : (bs : List Bool) → last_address (set_last bs) ≡ last_address bs
last_address-set_last [] = refl
last_address-set_last (b ∷ []) = refl
last_address-set_last (b ∷ c ∷ bs) = ap some (length-set_last (c ∷ bs))

last_address-append : (bs : List Bool) → some (length bs) ≡ last_address (bs ++ false ∷ [])
last_address-append [] = refl
last_address-append (b ∷ bs) = ap some (omega (arith, length-append bs (false ∷ [])))

module _ {R : Type 0} where
  -- A prompt at the end whose flag has the next address.
  addressed-append :
      (ps : List (Prompt R)) (q : Prompt R) (n : ℕ)
      → ((i : ℕ) (p : Prompt R) → get_elem? ps i ≡ some p → p.cancel_flag ≡ n + i)
      → q.cancel_flag ≡ n + length ps
      → (i : ℕ) (p : Prompt R) → get_elem? (ps ++ q ∷ []) i ≡ some p
      → p.cancel_flag ≡ n + i
  addressed-append [] q n h e zero p k =
      sym (ap (λ (r : Prompt R). r.cancel_flag) (some-injective _ _ k)) ∙ e
  addressed-append [] q n h e (suc i) p k = absurd cc
  addressed-append (r ∷ ps) q n h e zero p k = h zero p k
  addressed-append (r ∷ ps) q n h e (suc i) p k =
      addressed-append ps q (suc n) (λ j p k. h (suc j) p k ∙ omega arith) (e ∙ omega arith) i p k
      ∙ omega arith

module _ {J E R : Type 0} where
  pub record IsCancelled (bs : List Bool) (s : AgentSession J E R) : Type 0 where
    pub flags_eq : s.flags ≡ bs
    pub kept : s.cancel_flag ≡ last_address bs
    pub as_many : length (s.sent) ≡ length bs
    pub addressed : (i : ℕ) (p : Prompt R) → get_elem? (s.sent) i ≡ some p → p.cancel_flag ≡ 0 + i

  cancel-IsCancelled :
      (bs : List Bool) (s : AgentSession J E R)
      → IsCancelled bs s
      → IsCancelled (set_last bs) (cancel s)
  unfolding cancel
  cancel-IsCancelled bs s i = record {
    flags_eq = rw (i.flags_eq, i.kept) (stored-set_last bs);
    kept = i.kept ∙ sym (last_address-set_last bs);
    as_many = i.as_many ∙ sym (length-set_last bs);
    addressed = i.addressed;
  }

  submit_prompt-IsCancelled :
      (bs : List Bool) (prompt : Prompt R) (s : AgentSession J E R)
      → IsCancelled bs s
      → IsCancelled (bs ++ false ∷ []) (submit_prompt prompt s)
  unfolding submit_prompt
  submit_prompt-IsCancelled bs prompt s i = record {
    flags_eq = ap (λ (l : List Bool). l ++ false ∷ []) (i.flags_eq);
    kept = rw (i.flags_eq) (last_address-append bs);
    as_many = omega (
      arith,
      i.as_many,
      length-append (s.sent) (record prompt { cancel_flag = length (s.flags) } ∷ []),
      length-append bs (false ∷ []),
    );
    addressed =
        addressed-append (s.sent) (record prompt { cancel_flag = length (s.flags) }) 0 (i.addressed)
          (omega (arith, ap length (i.flags_eq), i.as_many));
  }

  -- What the other calls leave as it is.
  same-IsCancelled :
      {bs : List Bool} (s s' : AgentSession J E R)
      → s.flags ≡ s'.flags
      → s.cancel_flag ≡ s'.cancel_flag
      → s.sent ≡ s'.sent
      → IsCancelled bs s
      → IsCancelled bs s'
  same-IsCancelled s s' e g h i = record {
    flags_eq = rw (sym e) (i.flags_eq);
    kept = rw (sym g) (i.kept);
    as_many = rw (sym h) (i.as_many);
    addressed = rw (sym h) (i.addressed);
  }

  calls-IsCancelled_from :
      (limit : ℕ) (cs : List (Call E R)) (bs : List Bool) (s : AgentSession J E R)
      → IsCancelled bs s
      → IsCancelled (cancelled_by cs bs) (calls limit cs s)
  unfolding calls call cancelled_by queue_prompt take_next_queued_prompt clear_queued_prompts
      clear_history apply_token_usage push_debug_entry
  calls-IsCancelled_from limit [] bs s i = i
  calls-IsCancelled_from limit (cancels ∷ cs) bs s i =
      calls-IsCancelled_from limit cs _ _ (cancel-IsCancelled bs s i)
  calls-IsCancelled_from limit (submits prompt ∷ cs) bs s i =
      calls-IsCancelled_from limit cs _ _ (submit_prompt-IsCancelled bs prompt s i)
  calls-IsCancelled_from limit (queues prompt ∷ cs) bs s i =
      calls-IsCancelled_from limit cs bs _
        (same-IsCancelled s (queue_prompt prompt s) refl refl refl i)
  calls-IsCancelled_from limit (takes ∷ cs) bs s i =
      calls-IsCancelled_from limit cs bs _
        (same-IsCancelled s ((take_next_queued_prompt s).1) refl refl refl i)
  calls-IsCancelled_from limit (drops ∷ cs) bs s i =
      calls-IsCancelled_from limit cs bs _
        (same-IsCancelled s (clear_queued_prompts s) refl refl refl i)
  calls-IsCancelled_from limit (forgets ∷ cs) bs s i =
      calls-IsCancelled_from limit cs bs _ (same-IsCancelled s (clear_history s) refl refl refl i)
  calls-IsCancelled_from limit (uses info ∷ cs) bs s i =
      calls-IsCancelled_from limit cs bs _
        (same-IsCancelled s (apply_token_usage limit info s) refl refl refl i)
  calls-IsCancelled_from limit (logs entry ∷ cs) bs s i =
      calls-IsCancelled_from limit cs bs _
        (same-IsCancelled s (push_debug_entry entry s) refl refl refl i)

  build-IsCancelled : IsCancelled [] (build {J = J} {E = E} {R = R})
  unfolding build
  build-IsCancelled = record {
    flags_eq = refl;
    kept = refl;
    as_many = refl;
    addressed = λ i p e. absurd cc;
  }

-- After any calls on a new handle each prompt that was sent has a flag of its own, in the order in which
-- they were sent, and a flag is set where the prompt was cancelled before the next one was submitted.
pub calls-IsCancelled :
    (J E R : Type 0) (limit : ℕ) (cs : List (Call E R))
    → IsCancelled (cancelled_by cs []) (calls limit cs (build {J = J} {E = E} {R = R}))
calls-IsCancelled J E R limit cs =
    calls-IsCancelled_from limit cs [] (build {J = J} {E = E} {R = R}) build-IsCancelled
