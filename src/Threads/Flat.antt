-- ===== src/Threads/Flat.antt =====
-- Replies to replies: what the checks of `validate_reply_on` keep out, and what they let in.
use projects_backend.Base.{
  ◌==◌, if◌then◌else◌, ==_iff, Bool-cases, Option-cases, is_some, some-injective, none-ne-some,
  ok-injective, err-ne-ok, bind_ok, ok, ℕ, ◌≡◌, refl, sym, ap, subst, ◌∙◌, inl, inr, false, Option,
  none, some, List, [], ◌∷◌, ◌++◌, arith,
}
use projects_backend.Threads.{
  Message, Given, absent, null, target, find_message, is_instance, check_target, validate_reply_on,
  create_message, set_reply_on, update_message, write_reply_on,
}

-- Every reply is to a message that is no reply.
pub record IsFlat (ms : List Message) : Type 0 where
  pub flat :
      (i p : ℕ) (m : Message)
      → find_message i ms ≡ some m
      → m.reply_on ≡ some p
      → (q : Message) × (find_message p ms ≡ some q) × (q.reply_on ≡ none)

find-append :
    (i : ℕ) (ms : List Message) (n : Message)
    → find_message i (ms ++ n ∷ []) ≡ (
        if is_some (find_message i ms)
        then find_message i ms
        else if n.id == i
        then some n
        else none)
find-append i [] n = refl
find-append i (m ∷ ms) n = elim (Bool-cases (m.id == i)) [
  | inl e ↦ rw e refl
  | inr e ↦ rw e (find-append i ms n)
]

pub find-id : (i : ℕ) (ms : List Message) (m : Message) → find_message i ms ≡ some m → m.id ≡ i
find-id i [] m h = absurd (none-ne-some m h)
find-id i (x ∷ ms) m h = elim (Bool-cases (x.id == i)) [
  | inl e ↦ subst (λ (z : Message). z.id ≡ i) (some-injective x m (rw e at h)) ((==_iff x.id i).0 e)
  | inr e ↦ find-id i ms m (rw e at h)
]

-- A target that is accepted is there, and it is no reply.
check_target_ok :
    (instance_id : Option ℕ) (o : Option Message) (r : Option ℕ)
    → check_target instance_id o ≡ ok r
    → (q : Message) × (o ≡ some q)
      × (q.reply_on ≡ none)
      × (r ≡ some q.id)
      × (is_instance instance_id q.id ≡ false)
check_target_ok instance_id none r h = absurd (err-ne-ok _ r h)
check_target_ok instance_id (some q) r h = elim (Option-cases q.reply_on) [
  | inr (p, e) ↦ absurd (err-ne-ok _ r (rw e at h))
  | inl e ↦ elim (Bool-cases (is_instance instance_id q.id)) [
    | inl self ↦ absurd (err-ne-ok _ r (rw (e, self) at h))
    | inr other ↦ (q, refl, e, sym (ok-injective _ r (rw (e, other) at h)), other)
  ]
]

-- What a new message, or a message with a new link, replies to.
abbrev IsTopLevel : Option ℕ → List Message → Type 0
IsTopLevel o ms =
    (p : ℕ) → o ≡ some p → (q : Message) × (find_message p ms ≡ some q) × (q.reply_on ≡ none)

append-IsFlat :
    (ms : List Message) (n : Message) → IsTopLevel n.reply_on ms → IsFlat ms → IsFlat (ms ++ n ∷ [])
append-IsFlat ms n top h = record {
  flat = λ i p m there reply. elim (Option-cases (find_message i ms)) [
    | inr (x, e) ↦
        let same : x ≡ m = some-injective x m (sym (find-append i ms n ∙ rw e refl) ∙ there) in
        let (q, at, none_on) = h.flat i p x e (ap (λ (z : Message). z.reply_on) same ∙ reply) in
        (q, find-append p ms n ∙ rw at refl, none_on)
    | inl e ↦ elim (Bool-cases (n.id == i)) [
      | inl own ↦
          let same : n ≡ m =
            some-injective n m (sym (find-append i ms n ∙ rw (e, own) refl) ∙ there) in
          let (q, at, none_on) = top p (ap (λ (z : Message). z.reply_on) same ∙ reply) in
          (q, find-append p ms n ∙ rw at refl, none_on)
      | inr other ↦ absurd (none-ne-some m (sym (find-append i ms n ∙ rw (e, other) refl) ∙ there))
    ]
  ];
}

abbrev relinked : ℕ → ℕ → Message → Message
relinked i p m = if m.id == i then record m { reply_on = some p } else m

pub find-set_reply_on :
    (j i p : ℕ) (ms : List Message) (m : Message)
    → find_message j ms ≡ some m
    → find_message j (set_reply_on i p ms) ≡ some (relinked i p m)
find-set_reply_on j i p [] m h = absurd (none-ne-some m h)
find-set_reply_on j i p (x ∷ ms) m h = elim (Bool-cases (x.id == j)) [
  | inl e ↦
      let here : find_message j (set_reply_on i p (x ∷ ms)) ≡ some (relinked i p x) =
        elim (Bool-cases (x.id == i)) [ inl c ↦ rw (c, e) refl | inr c ↦ rw (c, e) refl ] in
      here ∙ ap (λ z. some (relinked i p z)) (some-injective x m (rw e at h))
  | inr e ↦
      let later = find-set_reply_on j i p ms m (rw e at h) in
      elim (Bool-cases (x.id == i)) [ inl c ↦ rw (c, e) later | inr c ↦ rw (c, e) later ]
]

-- No message replies to this one.
abbrev pub HasNoReplies : ℕ → List Message → Type 0
HasNoReplies i ms = (j : ℕ) (m : Message) → find_message j ms ≡ some m → m.reply_on ≡ some i → ⊥

-- What is not found is not found after the write.
find-set_reply_on-none :
    (j i p : ℕ) (ms : List Message)
    → find_message j ms ≡ none
    → find_message j (set_reply_on i p ms) ≡ none
find-set_reply_on-none j i p [] h = refl
find-set_reply_on-none j i p (x ∷ ms) h = elim (Bool-cases (x.id == j)) [
  | inl e ↦ absurd (none-ne-some x (sym (rw e at h)))
  | inr e ↦
      let later = find-set_reply_on-none j i p ms (rw e at h) in
      elim (Bool-cases (x.id == i)) [ inl c ↦ rw (c, e) later | inr c ↦ rw (c, e) later ]
]

-- A message that is no reply is one still, when another message is linked.
kept_top :
    (i p r : ℕ) (ms : List Message) (q : Message)
    → find_message r ms ≡ some q
    → (q.id == i) ≡ false
    → find_message r (set_reply_on i p ms) ≡ some q
kept_top i p r ms q at other = find-set_reply_on r i p ms q at ∙ rw other refl

-- A message that is replied to is not the one without replies.
not_replied :
    (i r : ℕ) (ms : List Message) (q x : Message) (j : ℕ)
    → find_message r ms ≡ some q
    → find_message j ms ≡ some x
    → x.reply_on ≡ some r
    → HasNoReplies i ms
    → (q.id == i) ≡ false
not_replied i r ms q x j at there link alone = elim (Bool-cases (q.id == i)) [
  | inr e ↦ e
  | inl e ↦
      let same : r ≡ i = sym (find-id r ms q at) ∙ (==_iff q.id i).0 e in
      absurd (alone j x there (link ∙ ap some same))
]

set_reply_on-IsFlat :
    (ms : List Message) (i p : ℕ) (target_row : Message)
    → IsFlat ms
    → HasNoReplies i ms
    → find_message p ms ≡ some target_row
    → target_row.reply_on ≡ none
    → (target_row.id == i) ≡ false
    → IsFlat (set_reply_on i p ms)
set_reply_on-IsFlat ms i p t h alone at_t top other = record {
  flat = λ j r m there reply. elim (Option-cases (find_message j ms)) [
    | inl e ↦ absurd (none-ne-some m (sym (find-set_reply_on-none j i p ms e) ∙ there))
    | inr (x, e) ↦
        let same : relinked i p x ≡ m =
          some-injective (relinked i p x) m (sym (find-set_reply_on j i p ms x e) ∙ there) in
        let link : (relinked i p x).reply_on ≡ some r =
          ap (λ (z : Message). z.reply_on) same ∙ reply in
        elim (Bool-cases (x.id == i)) [
          | inl own ↦
              let to : p ≡ r = some-injective p r (rw own at link) in
              (
                t,
                subst (λ k. find_message k (set_reply_on i p ms) ≡ some t) to
                    (kept_top i p p ms t at_t other),
                top,
              )
          | inr els ↦
              let (q, at, none_on) = h.flat j r x e (rw els at link) in
              (
                q,
                kept_top i p r ms q at (not_replied i r ms q x j at e (rw els at link) alone),
                none_on,
              )
        ]
  ];
}

valid_top :
    (instance_id : Option ℕ) (given : Given) (ms : List Message) (o : Option ℕ)
    → validate_reply_on instance_id given ms ≡ ok o
    → IsTopLevel o ms
valid_top instance_id absent ms o h p e = absurd (none-ne-some p (ok-injective none o h ∙ e))
valid_top instance_id null ms o h p e = absurd (err-ne-ok _ o h)
valid_top instance_id (target t) ms o h p e =
    let (q, at, top, same, _) = check_target_ok instance_id (find_message t ms) o h in
    let to : t ≡ p = sym (find-id t ms q at) ∙ some-injective q.id p (sym same ∙ e) in
    (q, ap (λ k. find_message k ms) (sym to) ∙ at, top)

written-IsFlat :
    (i : ℕ) (given : Given) (ms : List Message) (o : Option ℕ)
    → IsFlat ms
    → HasNoReplies i ms
    → validate_reply_on (some i) given ms ≡ ok o
    → IsFlat (write_reply_on i o ms)
written-IsFlat i absent ms o h alone valid =
    subst (λ z. IsFlat (write_reply_on i z ms)) (ok-injective none o valid) h
written-IsFlat i null ms o h alone valid = absurd (err-ne-ok _ o valid)
written-IsFlat i (target t) ms o h alone valid =
    let (q, at, top, same, other) = check_target_ok (some i) (find_message t ms) o valid in
    let apart : (q.id == i) ≡ false = ground arith in
    let to : t ≡ q.id = sym (find-id t ms q at) in
    subst (λ z. IsFlat (write_reply_on i z ms)) (sym same)
      (set_reply_on-IsFlat ms i q.id q h alone (ap (λ k. find_message k ms) (sym to) ∙ at) top
        apart)

-- Creating a message keeps the threads flat, so that every reply is to a message that is no reply,
-- and so does updating a message that has no replies.
pub validated_reply-IsFlat :
    (ms ms' : List Message) (i : ℕ) (given : Given)
    → IsFlat ms
    → (create_message i given ms ≡ ok ms' → IsFlat ms')
      × (update_message i given ms ≡ ok ms' → HasNoReplies i ms → IsFlat ms')
unfolding create_message update_message
validated_reply-IsFlat ms ms' i given h = (
  λ done.
      let (o, valid, written) = bind_ok (validate_reply_on none given ms) _ ms' done in
      subst IsFlat (ok-injective _ ms' written)
        (append-IsFlat ms (record { id = i; reply_on = o }) (valid_top none given ms o valid) h),
  λ done alone.
      let (o, valid, written) = bind_ok (validate_reply_on (some i) given ms) _ ms' done in
      subst IsFlat (ok-injective _ ms' written) (written-IsFlat i given ms o h alone valid),
)
