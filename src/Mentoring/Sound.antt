-- ===== src/Mentoring/Sound.antt =====
-- What every request to apps/skills/views.py keeps, and so holds in all the stores that requests lead to.
use projects_backend.Base.{
  ◌==◌, if◌then◌else◌, any, all, all-weaken, all-map, ◌>>◌, raise_if, ok-injective, err-ne-ok,
  bind_ok, raise_if_ok, ok, ℕ, suc, ◌≡◌, refl, sym, ap, subst, ◌∙◌, Bool, true, false, not, ◌||◌,
  Option, none, some, List, [], ◌∷◌, ◌++◌, arith,
}
use projects_backend.Mentoring.{
  MentoringStatus, Skill, Mentoring, Message, Store, Answer, answered, same_pair, find_mentoring,
  find_skill, save_mentoring, create_mentoring, contact_mentor, contact_mentoree, respond,
  notify_creator, send, known_organization, validated, Request, to_mentor, to_mentoree, response,
  deletion, destroy, handle,
}
use projects_backend.Mentoring.Reach.{
  Reaches, start, step, elsewhere, keep_mentorings-IsSound, IsSound, has_creator, IsApart-append,
  found-holds, found-only, save_mentoring-IsApart, all-append, is_old,
}

-- A message that is sent adds itself and nothing else.
pub sent :
    (refused : Bool) (message : Message) (m : Mentoring) (s s' : Store) (a : Answer)
    → send refused message m s ≡ ok (a, s')
    → (a ≡ answered m) × (s' ≡ (record s { messages = s.messages ++ message ∷ [] }))
sent refused message m s s' a h =
    let (_, _, done) = bind_ok (raise_if refused _) _ (a, s') h in
    let same = ok-injective _ (a, s') done in (sym (ap (λ p. p.0) same), sym (ap (λ p. p.1) same))

sent-IsSound :
    (refused : Bool) (message : Message) (m : Mentoring) (s s' : Store) (a : Answer)
    → IsSound s
    → send refused message m s ≡ ok (a, s')
    → IsSound s'
sent-IsSound refused message m s s' a sound h =
    let (_, same) = sent refused message m s s' a h in
    subst IsSound (sym same)
      (record { creators = sound.creators; apart = sound.apart; fresh = sound.fresh })

older :
    (next : ℕ) (ms : List Mentoring)
    → all (is_old next) ms ≡ true
    → all (is_old (suc next)) ms ≡ true
older next ms h = all-weaken (is_old next) (is_old (suc next)) (λ m o. ground arith) ms h

create_mentoring-IsSound :
    (organization : ℕ) (skill : Skill) (mentor mentoree sender content : ℕ) (refused : Bool)
    (s s' : Store) (a : Answer)
    → IsSound s
    → (sender == mentor || sender == mentoree) ≡ true
    → create_mentoring organization skill mentor mentoree sender content refused s ≡ ok (a, s')
    → IsSound s'
unfolding create_mentoring
create_mentoring-IsSound organization skill mentor mentoree sender content refused s s' a sound part
      h =
    let (u, unique, done) =
      bind_ok (raise_if (any (same_pair mentor mentoree skill.id) s.mentorings) _) _ (a, s') h in
    let m : Mentoring = record {
      id = s.next_mentoring;
      organization = organization;
      skill = skill.id;
      mentor = mentor;
      mentoree = mentoree;
      status = none;
      created_by = sender;
    } in
    let old = older s.next_mentoring s.mentorings sound.fresh in
    sent-IsSound refused _ m _ s' a
      (record {
        creators = all-append has_creator s.mentorings m ∙ rw (sound.creators, part) refl;
        apart =
            IsApart-append s.next_mentoring s.mentorings m sound.apart sound.fresh refl
              (raise_if_ok _ _ u unique);
        fresh = all-append (is_old (suc s.next_mentoring)) s.mentorings m ∙ rw old (ground arith);
      })
      done

contact_mentor-IsSound :
    (user code skill_id : ℕ) (body : Option ℕ) (refused : Bool) (s s' : Store) (a : Answer)
    → IsSound s
    → contact_mentor user code skill_id body refused s ≡ ok (a, s')
    → IsSound s'
unfolding contact_mentor
contact_mentor-IsSound user code skill_id body refused s s' a sound h =
    let (skill, _, rest) =
      bind_ok (known_organization code s >> find_skill skill_id s.skills) _ (a, s') h in
    let (content, _, done) =
      bind_ok (raise_if (not skill.can_mentor) _ >> validated body) _ (a, s') rest in
    create_mentoring-IsSound code skill skill.user user user content refused s s' a sound
      (ground arith) done

contact_mentoree-IsSound :
    (user code skill_id : ℕ) (body : Option ℕ) (refused : Bool) (s s' : Store) (a : Answer)
    → IsSound s
    → contact_mentoree user code skill_id body refused s ≡ ok (a, s')
    → IsSound s'
unfolding contact_mentoree
contact_mentoree-IsSound user code skill_id body refused s s' a sound h =
    let (skill, _, rest) =
      bind_ok (known_organization code s >> find_skill skill_id s.skills) _ (a, s') h in
    let (content, _, done) =
      bind_ok (raise_if (not skill.needs_mentor) _ >> validated body) _ (a, s') rest in
    create_mentoring-IsSound code skill user skill.user user content refused s s' a sound
      (ground arith) done

validated_ok : {A : Type 0} (body : Option A) (a : A) → validated body ≡ ok a → body ≡ some a
validated_ok none a h = absurd (err-ne-ok _ a h)
validated_ok (some b) a h = ap some (ok-injective b a h)

-- A response that returns: the mentoring was found among the user's, and the user did not create it.
pub respond_ok :
    (user code i : ℕ) (body : Option (MentoringStatus × ℕ)) (refused : Bool) (s s' : Store)
    (a : Answer)
    → respond user code i body refused s ≡ ok (a, s')
    → (m : Mentoring) × (status : MentoringStatus) × (content : ℕ) × (find_mentoring user i
          s.mentorings
        ≡ ok m)
      × ((user == m.created_by) ≡ false)
      × (body ≡ some (status, content))
      × (notify_creator user
            (record m { status = some status })
            content
            refused
            (record s {
              mentorings = save_mentoring (record m { status = some status }) s.mentorings;
            })
          ≡ ok (a, s'))
unfolding respond
respond_ok user code i body refused s s' a h =
    let (m, looked, rest) =
      bind_ok (known_organization code s >> find_mentoring user i s.mentorings) _ (a, s') h in
    let (_, _, there) = bind_ok (known_organization code s) _ m looked in
    let ((status, content), checked, done) =
      bind_ok (raise_if (user == m.created_by) _ >> validated body) _ (a, s') rest in
    let (u, other, valid) =
      bind_ok (raise_if (user == m.created_by) _) _ (status, content) checked in
    (
      m,
      status,
      content,
      there,
      raise_if_ok _ _ u other,
      validated_ok body (status, content) valid,
      done,
    )

-- Under a known creator the answer is sent to it.
pub notify_creator_ok :
    (user : ℕ) (m : Mentoring) (content : ℕ) (refused : Bool) (s s' : Store) (a : Answer)
    → has_creator m ≡ true
    → notify_creator user m content refused s ≡ ok (a, s')
    → send refused (record { mentoring = m.id; sender = user; content = content }) m s ≡ ok (a, s')
notify_creator_ok user m content refused s s' a known h = rw known at h

saved_if :
    (p : Mentoring → Bool) (b : Bool) (r x : Mentoring)
    → p r ≡ true
    → p x ≡ true
    → p (if b then r else x) ≡ true
saved_if p true r x hr hx = hr
saved_if p false r x hr hx = hx

respond-IsSound :
    (user code i : ℕ) (body : Option (MentoringStatus × ℕ)) (refused : Bool) (s s' : Store)
    (a : Answer)
    → IsSound s
    → respond user code i body refused s ≡ ok (a, s')
    → IsSound s'
respond-IsSound user code i body refused s s' a sound h =
    let (m, status, content, there, _, _, done) = respond_ok user code i body refused s s' a h in
    let m' : Mentoring = record m { status = some status } in
    let known = found-holds has_creator user i s.mentorings m there sound.creators in
    let old = found-holds (is_old s.next_mentoring) user i s.mentorings m there sound.fresh in
    sent-IsSound refused _ m' (record s { mentorings = save_mentoring m' s.mentorings }) s' a
      (record {
        creators =
            all-map has_creator _ (λ x hx. saved_if has_creator (x.id == m.id) m' x known hx)
              s.mentorings sound.creators;
        apart =
            save_mentoring-IsApart m' s.mentorings
              (found-only user i s.mentorings m sound.apart there) sound.apart;
        fresh =
            all-map (is_old s.next_mentoring) _
              (λ x hx. saved_if (is_old s.next_mentoring) (x.id == m.id) m' x old hx) s.mentorings
              sound.fresh;
      })
      (notify_creator_ok user m' content refused _ s' a known done)

destroy-IsSound :
    (user i : ℕ) (s s' : Store) (a : Answer)
    → IsSound s
    → destroy user i s ≡ ok (a, s')
    → IsSound s'
unfolding destroy
destroy-IsSound user i s s' a sound h =
    let (m, _, done) = bind_ok (find_mentoring user i s.mentorings) _ (a, s') h in
    let same = ok-injective _ (a, s') done in
    subst IsSound (ap (λ p. p.1) same) (keep_mentorings-IsSound (λ x. not (x.id == m.id)) s sound)

handle-IsSound :
    (r : Request) (s s' : Store) (a : Answer) → IsSound s → handle r s ≡ ok (a, s') → IsSound s'
unfolding handle
handle-IsSound (to_mentor user code skill_id body refused) s s' a =
    contact_mentor-IsSound user code skill_id body refused s s' a
handle-IsSound (to_mentoree user code skill_id body refused) s s' a =
    contact_mentoree-IsSound user code skill_id body refused s s' a
handle-IsSound (response user code i body refused) s s' a =
    respond-IsSound user code i body refused s s' a
handle-IsSound (deletion user i) s s' a = destroy-IsSound user i s s' a

-- In every store that the requests of `MentoringViewSet` lead to, whatever becomes of the skills and
-- the organizations meanwhile, each mentoring was created by its mentor or its mentoree, no two
-- mentorings share their identifier or their mentor, mentoree and skill, and all identifiers are below
-- the next one.
pub reachable-IsSound : (s : Store) → Reaches s → IsSound s
reachable-IsSound s (start organizations skills) = record {
  creators = refl;
  apart = tt;
  fresh = refl;
}
reachable-IsSound s (step r a before after reached done) =
    handle-IsSound r before s a (reachable-IsSound before reached) done
reachable-IsSound s (elsewhere organizations skills keep before reached) =
    let sound = reachable-IsSound before reached in
    keep_mentorings-IsSound keep (record before { organizations = organizations; skills = skills })
      (record { creators = sound.creators; apart = sound.apart; fresh = sound.fresh })
