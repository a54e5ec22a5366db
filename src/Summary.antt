-- ===== src/Summary.antt =====
-- packages/pwa/src/app/api/summary/route.ts: the summary of the messages of a chat in a period. The
-- user of a token, the database, the gateway, the Groq service, the clock and the texts of dates are
-- a parameter; the calls of the service and the messages sent are recorded in a log.
pub mod Window
pub mod Made
use zapi_pwa.Base.{
  ℕ, ◌+◌, ◌-◌, ◌*◌, ◌/◌, Bool, true, false, Option, none, some, List, [], ◌∷◌, ◌++◌, map, filter,
  ltb, leb, if◌then◌else◌, drop, length, Text, text, text_eq, is_empty,
}
use zapi_pwa.Effect.{Outcome, returned, thrown}
use zapi_pwa.Routes.{
  need, check, truthy_text, or_text, or_null, in_milliseconds, Answer, refused, failed, answered,
  unauthorized, user_of_token,
}

pub record Message : Type 0 where
  pub sender_name : Option Text
  pub text : Option Text
  pub timestamp : ℕ
  pub kind : Text
  pub media_caption : Option Text
  pub from_me : Bool

-- What the gateway answers.
pub data Fetched : Type 0 where
  bad_status : Text → Fetched
  no_array : Fetched
  messages : List Message → Fetched

pub record Summary : Type 0 where
  pub summary : Text
  pub message_count : ℕ
  pub period : Text
  pub partial : Option Bool

pub data Call : Type 0 where
  summarized : Text → Call
  sent : Text → Text → Text → Call

pub record Body : Type 0 where
  pub session_id : Option Text
  pub chat_jid : Option Text
  pub period : Option Text
  pub send_back : Bool

abbrev pub hour : ℕ
hour = 60 * 60 * 1000

abbrev pub day : ℕ
day = 24 * hour

-- `resolveCutoff`; a time before 1970, which the source makes negative, is 0 here.
unfoldable pub resolve_cutoff : Text → ℕ → ℕ
resolve_cutoff period now =
    if text_eq period (text "hoje")
    then (now - 3 * hour) / day * day + 3 * hour
    else if text_eq period (text "24h")
    then now - day
    else if text_eq period (text "3d")
    then now - 3 * day
    else if text_eq period (text "7d")
    then now - 7 * day
    else if text_eq period (text "30d")
    then now - 30 * day
    else now - 7 * day

-- `describePeriod`
unfoldable pub describe_period : Text → Text
describe_period period =
    if text_eq period (text "hoje")
    then text "hoje"
    else if text_eq period (text "24h")
    then text "últimas 24 horas"
    else if text_eq period (text "3d")
    then text "últimos 3 dias"
    else if text_eq period (text "7d")
    then text "últimos 7 dias"
    else if text_eq period (text "30d")
    then text "últimos 30 dias"
    else period

unfoldable pub limit_of : Text → ℕ
limit_of period =
    if text_eq period (text "30d") then 1000 else if text_eq period (text "7d") then 500 else 200

unfoldable pub is_in_period : ℕ → Message → Bool
is_in_period cutoff m = leb cutoff (in_milliseconds m.timestamp)

abbrev pub max_chars : ℕ
max_chars = 100000

abbrev type_tag : Text → Text
type_tag [] = []
type_tag (c ∷ kind) =
    if text_eq (c ∷ kind) (text "text") then [] else text " [" ++ ((c ∷ kind) ++ text "]")

-- A line of the conversation, with the text of its time.
unfoldable pub log_line : (ℕ → Text) → Message → Text
log_line time_text m =
    let sender =
      if m.from_me
      then text "Você"
      else or_null (truthy_text m.sender_name) (text "Desconhecido") in
    let content = or_null (or_text m.text m.media_caption) [] in
    text "["
    ++ (time_text (in_milliseconds m.timestamp)
        ++ (text "] " ++ (sender ++ (type_tag m.kind ++ (text ": " ++ content)))))

-- `lines.join("\n")`
unfoldable pub join_lines : List Text → Text
join_lines [] = []
join_lines (l ∷ []) = l
join_lines (l ∷ k ∷ ls) = l ++ (10 ∷ join_lines (k ∷ ls))

-- `log.slice(-MAX_CHARS)` if it is longer.
unfoldable pub shorten : Text → Text
shorten log = if ltb max_chars (length log) then drop (length log - max_chars) log else log

abbrev pub is_partial : Text → Bool
is_partial log = ltb max_chars (length log)

abbrev pub empty_note : Text
empty_note = text "_Nenhuma mensagem no período selecionado._"

abbrev pub no_summary : Text
no_summary = text "_Não foi possível gerar resumo._"

abbrev suffix : Bool → Text
suffix true = text "\n\n⚠" ++ (65039 ∷ text " _Resumo parcial — conversa muito grande_")
suffix false = []

-- The message that is sent to the chat.
unfoldable pub chat_message : Text → Text → Bool → Text
chat_message label summary partial =
    text "📋 *Resumo — " ++ (label ++ (text "*\n\n" ++ (summary ++ suffix partial)))

pub record Services : Type 1 where
  pub State : Type 0
  pub user_of : Text → State → Option Text
  pub owns : Text → Text → State → Bool
  pub now : State → ℕ
  pub time_text : ℕ → Text
  -- The prompt with the label of the period and the conversation.
  pub prompt : Text → Text → Text
  pub fetch_messages : Text → Text → ℕ → State → Outcome Fetched
  pub complete : Text → State → Outcome (Option Text) × State
  pub send : Text → Text → Text → State → State

module _ (v : Services) where
  abbrev pub World : Type 0
  World = List Call × v.State

  unfoldable pub conversation : List Message → Text
  unfolding log_line join_lines
  conversation ms = join_lines (map (log_line v.time_text) ms)

  abbrev pub send_back_if : Bool → Text → Text → Text → World → World
  send_back_if true session chat message (log, s) =
      (log ++ sent session chat message ∷ [], v.send session chat message s)
  send_back_if false session chat message w = w

  abbrev pub after_completion :
      Bool
      → Text
      → Text
      → Text
      → ℕ
      → Bool
      → List Call
      → Outcome (Option Text) × v.State
      → Answer Summary × World
  after_completion back session chat period count partial log (thrown e, s) =
      (refused 500 e, (log, s))
  after_completion back session chat period count partial log (returned content, s) =
      let summary = or_null (truthy_text content) no_summary in
      (
        answered (record {
          summary = summary;
          message_count = count;
          period = period;
          partial = some partial;
        }),
        send_back_if back session chat (chat_message (describe_period period) summary partial)
            (log, s),
      )

  -- The summary of the messages of the period.
  unfoldable pub summarize :
      Bool → Text → Text → Text → List Message → World → Answer Summary × World
  unfolding conversation shorten
  summarize back session chat period [] w = (
    answered (record { summary = empty_note; message_count = 0; period = period; partial = none }),
    w,
  )
  summarize back session chat period (m ∷ ms) (log, s) =
      let talk = conversation (m ∷ ms) in
      let prompt = v.prompt (describe_period period) (shorten talk) in
      after_completion back session chat period (length (m ∷ ms)) (is_partial talk)
        (log ++ summarized prompt ∷ []) (v.complete prompt s)

  abbrev pub in_period : Text → v.State → List Message → List Message
  in_period period s = filter (is_in_period (resolve_cutoff period (v.now s)))

  abbrev pub after_fetch :
      Bool → Text → Text → Text → Outcome Fetched → World → Answer Summary × World
  after_fetch back session chat period (thrown e) w = (failed e, w)
  after_fetch back session chat period (returned (bad_status n)) w =
      (refused 502 (text "Failed to fetch messages: HTTP " ++ n), w)
  after_fetch back session chat period (returned no_array) w =
      (refused 502 (text "Invalid messages response"), w)
  after_fetch back session chat period (returned (messages ms)) (log, s) =
      summarize back session chat period (in_period period s ms) (log, s)

  abbrev missing : Text
  missing = text "sessionId, chatJid, and period required"

  -- `POST`
  unfoldable pub post_summary : Option Text → Body → World → Answer Summary × World
  unfolding summarize limit_of
  post_summary token body (log, s) =
      need (user_of_token v.user_of token s) unauthorized
        (λ user. need (truthy_text body.session_id) (refused 400 missing) (λ session.
          need (truthy_text body.chat_jid) (refused 400 missing) (λ chat.
            need (truthy_text body.period) (refused 400 missing) (λ period.
              check (v.owns user session s) (refused 403 (text "Session not accessible")) (
                after_fetch body.send_back session chat period
                  (v.fetch_messages session chat (limit_of period) s))))))
        (log, s)
