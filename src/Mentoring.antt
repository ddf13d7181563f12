-- ===== src/Mentoring.antt =====
-- Mentoring: apps/skills/models.py (`Mentoring`) and the actions of `MentoringViewSet` in
-- apps/skills/views.py. What the request's serializer returns, `none` where it raises, and whether
-- the mail server refuses the mail are arguments. A transaction that raises writes nothing, so an
-- exception carries no store.
pub mod Reach
pub mod Sound
pub mod Respond
mod Tests
use projects_backend.Base.{
  ◌==◌, if◌then◌else◌, mem, any, filter, Result, ◌>>=◌, ◌>>◌, raise_if, ok, err, ℕ, suc, Bool, not,
  ◌&&◌, ◌||◌, Option, none, some, List, [], ◌∷◌, ◌++◌, map,
}

-- `Mentoring.MentoringStatus`
pub data MentoringStatus : Type 0 where
  pending accepted rejected : MentoringStatus

pub record Skill : Type 0 where
  pub id : ℕ
  pub user : ℕ
  pub can_mentor : Bool
  pub needs_mentor : Bool

pub record Mentoring : Type 0 where
  pub id : ℕ
  pub organization : ℕ
  pub skill : ℕ
  pub mentor : ℕ
  pub mentoree : ℕ
  pub status : Option MentoringStatus
  pub created_by : ℕ

pub record Message : Type 0 where
  pub mentoring : ℕ
  pub sender : ℕ
  pub content : ℕ

pub record Store : Type 0 where
  pub organizations : List ℕ
  pub skills : List Skill
  pub mentorings : List Mentoring
  pub messages : List Message
  pub next_mentoring : ℕ

pub data Failure : Type 0 where
  not_found user_cannot_mentor user_does_not_need_mentor : Failure
  invalid duplicated_mentoring creator_status_change mail_refused : Failure

pub data Answer : Type 0 where
  answered : Mentoring → Answer
  bad_request deleted : Answer

abbrev pub find_skill : ℕ → List Skill → Result Failure Skill
find_skill i [] = err not_found
find_skill i (s ∷ ss) = if s.id == i then ok s else find_skill i ss

abbrev pub known_organization : ℕ → Store → Result Failure (Unit {0})
known_organization code s = raise_if (not (mem code s.organizations)) not_found

-- `unique_together = ("mentor", "mentoree", "skill")`
abbrev pub same_pair : ℕ → ℕ → ℕ → Mentoring → Bool
same_pair mentor mentoree skill m = m.mentor == mentor && m.mentoree == mentoree && m.skill == skill

abbrev pub validated : {A : Type 0} → Option A → Result Failure A
validated none = err invalid
validated (some a) = ok a

-- the message and the mail at the end of an action
abbrev pub send : Bool → Message → Mentoring → Store → Result Failure (Answer × Store)
send refused message m s =
    raise_if refused mail_refused
    >> ok (answered m, record s { messages = s.messages ++ message ∷ [] })

-- `Mentoring.objects.create(...)` with the first message and the mail
pub create_mentoring : ℕ → Skill → ℕ → ℕ → ℕ → ℕ → Bool → Store → Result Failure (Answer × Store)
create_mentoring organization skill mentor mentoree sender content refused s =
    let m : Mentoring = record {
      id = s.next_mentoring;
      organization = organization;
      skill = skill.id;
      mentor = mentor;
      mentoree = mentoree;
      status = none;
      created_by = sender;
    } in
    raise_if (any (same_pair mentor mentoree skill.id) s.mentorings) duplicated_mentoring
    >> send refused (record { mentoring = m.id; sender = sender; content = content }) m
        (record s { mentorings = s.mentorings ++ m ∷ []; next_mentoring = suc s.next_mentoring })

-- `contact_mentor`
pub contact_mentor : ℕ → ℕ → ℕ → Option ℕ → Bool → Store → Result Failure (Answer × Store)
contact_mentor user code skill_id body refused s =
    known_organization code s >> find_skill skill_id s.skills >>= λ skill.
    raise_if (not skill.can_mentor) user_cannot_mentor >> validated body >>= λ content.
    create_mentoring code skill skill.user user user content refused s

-- `contact_mentoree`
pub contact_mentoree : ℕ → ℕ → ℕ → Option ℕ → Bool → Store → Result Failure (Answer × Store)
contact_mentoree user code skill_id body refused s =
    known_organization code s >> find_skill skill_id s.skills >>= λ skill.
    raise_if (not skill.needs_mentor) user_does_not_need_mentor >> validated body >>= λ content.
    create_mentoring code skill user skill.user user content refused s

-- `get_object`: the mentoring of that identifier, if it is one of the user's
abbrev pub find_mentoring : ℕ → ℕ → List Mentoring → Result Failure Mentoring
find_mentoring user i [] = err not_found
find_mentoring user i (m ∷ ms) =
    if m.id == i && (m.mentoree == user || m.mentor == user) then ok m else find_mentoring user i ms

-- `instance.save()`
abbrev pub save_mentoring : Mentoring → List Mentoring → List Mentoring
save_mentoring r = map (λ m. if m.id == r.id then r else m)

-- the end of `respond`, once the status is saved
abbrev pub notify_creator : ℕ → Mentoring → ℕ → Bool → Store → Result Failure (Answer × Store)
notify_creator user m content refused s =
    if m.created_by == m.mentor || m.created_by == m.mentoree
    then send refused (record { mentoring = m.id; sender = user; content = content }) m s
    else ok (bad_request, s)

-- `respond`
pub respond :
    ℕ → ℕ → ℕ → Option (MentoringStatus × ℕ) → Bool → Store → Result Failure (Answer × Store)
respond user code i body refused s =
    known_organization code s >> find_mentoring user i s.mentorings >>= λ m.
    raise_if (user == m.created_by) creator_status_change >> validated body >>= λ (status, content).
    let m' = record m { status = some status } in
    notify_creator user m' content refused
      (record s { mentorings = save_mentoring m' s.mentorings })

-- Mentorings are deleted, and the messages that belong to them with them.
abbrev pub keep_mentorings : (Mentoring → Bool) → Store → Store
keep_mentorings keep s = record s {
  mentorings = filter keep s.mentorings;
  messages = filter (λ x. mem x.mentoring (map (λ m. m.id) (filter keep s.mentorings))) s.messages;
}

-- `destroy` of one of the user's mentorings; `IsOwner` holds for the mentor and the mentoree
pub destroy : ℕ → ℕ → Store → Result Failure (Answer × Store)
destroy user i s = find_mentoring user i s.mentorings >>= λ m.
    ok (deleted, keep_mentorings (λ x. not (x.id == m.id)) s)

-- A request of a user, with what the serializer and the mail server make of it.
pub data Request : Type 0 where
  to_mentor to_mentoree : (user code skill_id : ℕ) → Option ℕ → Bool → Request
  response : (user code i : ℕ) → Option (MentoringStatus × ℕ) → Bool → Request
  deletion : (user i : ℕ) → Request

pub handle : Request → Store → Result Failure (Answer × Store)
handle (to_mentor user code skill_id body refused) s =
    contact_mentor user code skill_id body refused s
handle (to_mentoree user code skill_id body refused) s =
    contact_mentoree user code skill_id body refused s
handle (response user code i body refused) s = respond user code i body refused s
handle (deletion user i) s = destroy user i s
