-- ===== src/Http/Refused.antt =====
-- What `send` of http.rs leaves of the client.
use un_tzibbur_bot.Base.{
  suc, ◌≡◌, refl, String, Bool, true, false, Bool-cases, inl, inr, Option, none, some, List, [],
  ◌∷◌, ◌++◌, if◌then◌else◌,
}
use un_tzibbur_bot.Error.{Result, ok, err, invalidates_session}
use un_tzibbur_bot.Http.{
  HttpEnv, Answer, Response, Client, is_success, map_error, send, with_token, dispatch, on_response,
  refused, notify_session_invalidated,
}

abbrev pub ends_session : Result Response → Bool
ends_session (ok resp) = false
ends_session (err error) = invalidates_session error

-- The requests that leave: one without a token, or one with the client's, if it has one.
abbrev pub due : Bool → Option String → List (Option String)
due false token = none ∷ []
due true none = []
due true (some token) = some token ∷ []

abbrev pub Told : Client → Client × Result Response → Type 0
Told c (c', r) =
    (c'.notified ≡ (if ends_session r then suc c.notified else c.notified)) × (c'.token ≡ c.token)

on_response-Told :
    (env : HttpEnv) (answer : Answer) (c : Client)
    → Told c (on_response env answer c) × ((on_response env answer c).0.sent ≡ c.sent)
unfolding on_response refused notify_session_invalidated invalidates_session
on_response-Told env (Answer.failed message) c = ((refl, refl), refl)
on_response-Told env (Answer.answered resp) c = elim (Bool-cases (is_success resp.status)) [
  | inl s ↦ rw s ((refl, refl), refl)
  | inr s ↦ rw s (elim (Bool-cases (invalidates_session (map_error env resp))) [
    | inl e ↦ rw e ((refl, refl), refl)
    | inr e ↦ rw e ((refl, refl), refl)
  ])
]

with_token-Told :
    (env : HttpEnv) (token : Option String) (answer : Answer) (c : Client)
    → Told c (with_token env token answer c)
      × ((with_token env token answer c).0.sent ≡ due true token ++ c.sent)
unfolding with_token dispatch invalidates_session
with_token-Told env none answer c = ((refl, refl), refl)
with_token-Told env (some token) answer c =
    on_response-Told env answer (record c { sent = some token ∷ c.sent })

-- Of every request: the listener is told once if the error that comes of it ends the session, and
-- never else; the token stays; and what needs a token is not sent without one.
pub send_lem :
    (env : HttpEnv) (auth : Bool) (answer : Answer) (c : Client)
    → let r = send env auth answer c in
      (r.0.notified ≡ (if ends_session r.1 then suc c.notified else c.notified))
      × (r.0.token ≡ c.token)
      × (r.0.sent ≡ due auth c.token ++ c.sent)
unfolding send with_token dispatch
send_lem env false answer c =
    let h = on_response-Told env answer (record c { sent = none ∷ c.sent }) in (h.0.0, h.0.1, h.1)
send_lem env true answer c = let h = with_token-Told env c.token answer c in (h.0.0, h.0.1, h.1)
