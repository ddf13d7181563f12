-- ===== src/Threads.antt =====
-- Threads of project messages and of comments: `validate_reply_on` of `ProjectMessageSerializer` in
-- apps/projects/serializers.py and `validate_reply_on_id` of `CommentSerializer` in
-- apps/feedbacks/serializers.py, which are the same, and the writes that follow them.
pub mod Flat
pub mod Linked
mod Tests
use projects_backend.Base.{
  ◌==◌, if◌then◌else◌, is_some, Result, ◌>>=◌, ok, err, ℕ, Bool, false, Option, none, some, List,
  [], ◌∷◌, ◌++◌, map,
}

pub record Message : Type 0 where
  pub id : ℕ
  pub reply_on : Option ℕ

-- The field in the request: left out, null, or the identifier of a message.
pub data Given : Type 0 where
  absent null : Given
  target : ℕ → Given

-- `attribute_error` is Python's, for the attribute `reply_on` of `None`.
pub data ThreadError : Type 0 where
  does_not_exist reply_on_reply reply_to_self attribute_error : ThreadError

abbrev pub find_message : ℕ → List Message → Option Message
find_message i [] = none
find_message i (m ∷ ms) = if m.id == i then some m else find_message i ms

-- `self.instance and self.instance.pk == reply_on.pk`
abbrev pub is_instance : Option ℕ → ℕ → Bool
is_instance none p = false
is_instance (some i) p = i == p

abbrev pub check_target : Option ℕ → Option Message → Result ThreadError (Option ℕ)
check_target instance_id none = err does_not_exist
check_target instance_id (some m) =
    if is_some m.reply_on
    then err reply_on_reply
    else if is_instance instance_id m.id
    then err reply_to_self
    else ok (some m.id)

-- The validation of a value that is given. The method is called on null too.
abbrev pub validate_reply_on : Option ℕ → Given → List Message → Result ThreadError (Option ℕ)
validate_reply_on instance_id absent ms = ok none
validate_reply_on instance_id null ms = err attribute_error
validate_reply_on instance_id (target p) ms = check_target instance_id (find_message p ms)

-- The creation of a message: `id` is the identifier that the database gives.
unfoldable pub create_message : ℕ → Given → List Message → Result ThreadError (List Message)
create_message id given ms = validate_reply_on none given ms >>= λ reply_on.
    ok (ms ++ (record { id = id; reply_on = reply_on }) ∷ [])

abbrev pub set_reply_on : ℕ → ℕ → List Message → List Message
set_reply_on i p = map (λ m. if m.id == i then record m { reply_on = some p } else m)

-- A field that is left out leaves the row's own value.
abbrev pub write_reply_on : ℕ → Option ℕ → List Message → List Message
write_reply_on i none ms = ms
write_reply_on i (some p) ms = set_reply_on i p ms

-- The update of a message.
unfoldable pub update_message : ℕ → Given → List Message → Result ThreadError (List Message)
update_message i given ms =
    validate_reply_on (some i) given ms >>= λ reply_on. ok (write_reply_on i reply_on ms)
