-- ===== src/Dashboard/Client.antt =====
-- dashboard/src/api/client.ts: the request helper and the calls of the management API.
pub mod Encoding
pub mod Calls
pub mod Laws
use go_php.Prelude.{String, Option, none, some, Bool, true, false, if◌then◌else◌, str_eq}
use go_php.Dashboard.Hooks.{Thrown, error_object, Settled, resolved, rejected}

-- What `res.json()` gives: the text is no JSON (with the engine's message), it is `null`, or it is a
-- value whose `error` member, if it has one, is a text; `T` is the value as the caller reads it.
pub data JsonBody {ℓ} (T : Type ℓ) : Type ℓ where
  malformed : String → JsonBody T
  null : String → T → JsonBody T
  value : Option String → T → JsonBody T

-- What `fetch` gives: it rejects, or answers with `res.ok`, `res.statusText` and a body.
pub data Answer {ℓ} (T : Type ℓ) : Type ℓ where
  unreachable : Thrown → Answer T
  answered : Bool → String → JsonBody T → Answer T

-- a || b, on texts
abbrev pub or_text : String → String → String
or_text a b = if str_eq a "" then b else a

-- (x || b) for a text that may be undefined
abbrev pub or_else : Option String → String → String
or_else none b = b
or_else (some a) b = or_text a b

module _ {ℓ} {T : Type ℓ} where
  -- The branch `!res.ok`. Reading `error` of `null` throws a TypeError, whose message is the
  -- constructor's text.
  failure : String → JsonBody T → Thrown
  failure status_text (malformed m) = error_object (or_text status_text "Request failed")
  failure status_text (null m t) = error_object m
  failure status_text (value error t) = error_object (or_else error "Request failed")

  success : JsonBody T → Settled T
  success (malformed m) = rejected (error_object m)
  success (null m t) = resolved t
  success (value error t) = resolved t

  unfoldable pub request : Answer T → Settled T
  unfolding failure success
  request (unreachable e) = rejected e
  request (answered true status_text body) = success body
  request (answered false status_text body) = rejected (failure status_text body)
