-- ===== src/Summary/Made.antt =====
-- What a request for a summary asks, sends and answers.
use zapi_pwa.Base.{
  ℕ, subst, ◌∙◌, text, ◌≡◌, ◌≢◌, refl, sym, ap, append-nil, Bool, true, false, Option, none, some,
  List, [], ◌∷◌, ◌++◌, length, Text,
}
use zapi_pwa.Effect.{Outcome, returned, thrown}
use zapi_pwa.Routes.{
  need-both, check-both, absent, failed, truthy_text, user_of_token, or_null, Answer, refused,
  answered,
}
use zapi_pwa.Summary.{
  Message, Fetched, bad_status, no_array, messages, Summary, Call, summarized, sent, Body,
  describe_period, limit_of, shorten, is_partial, empty_note, no_summary, chat_message, Services,
  World, conversation, send_back_if, after_completion, summarize, in_period, after_fetch,
  post_summary,
}

-- The message is sent to the chat if the body says so, last and once.
pub sent_if : Bool → Call → List Call
sent_if true c = c ∷ []
sent_if false c = []

-- The answer where the gateway gives no messages.
pub data NoMessages : Outcome Fetched → Answer Summary → Type 0 where
  threw : (e : Text) → NoMessages (thrown e) (failed e)
  status :
      (n : Text)
      → NoMessages
          (returned (bad_status n))
          (refused 502 (text "Failed to fetch messages: HTTP " ++ n))
  unreadable : NoMessages (returned no_array) (refused 502 (text "Invalid messages response"))

module _ (v : Services) where
  -- The owner of the session that a request names, with its chat and its period.
  pub record Owner (token : Option Text) (body : Body) (s : v.State) (session chat period : Text)
      : Type 0 where
    pub user : Text
    pub signed : user_of_token v.user_of token s ≡ some user
    pub session_given : truthy_text body.session_id ≡ some session
    pub chat_given : truthy_text body.chat_jid ≡ some chat
    pub period_given : truthy_text body.period ≡ some period
    pub owner : v.owns user session s ≡ true

  -- The prompt on some messages of the period.
  abbrev pub asked : Text → List Message → Text
  asked period ms = v.prompt (describe_period period) (shorten (conversation v ms))

  -- The end of a request of the owner of the session, from the messages that were fetched.
  pub data Made (body : Body) (session chat period : Text) (w : World v)
      (out : Answer Summary × World v) : Type 0 where
    unfetched :
        (a : Answer Summary)
        → NoMessages (v.fetch_messages session chat (limit_of period) w.1) a
        → out ≡ (a, w)
        → Made body session chat period w out
    nothing :
        (ms : List Message)
        → v.fetch_messages session chat (limit_of period) w.1 ≡ returned (messages ms)
        → in_period v period w.1 ms ≡ []
        → out ≡ (
          answered
              (record { summary = empty_note; message_count = 0; period = period; partial = none }),
          w,
        )
        → Made body session chat period w out
    unsummarized :
        (ms : List Message) (e : Text) (s' : v.State)
        → v.fetch_messages session chat (limit_of period) w.1 ≡ returned (messages ms)
        → in_period v period w.1 ms ≢ []
        → v.complete (asked period (in_period v period w.1 ms)) w.1 ≡ (thrown e, s')
        → out
          ≡ (refused 500 e, (w.0 ++ summarized (asked period (in_period v period w.1 ms)) ∷ [], s'))
        → Made body session chat period w out
    made :
        (ms : List Message) (content : Option Text) (s' s'' : v.State)
        → v.fetch_messages session chat (limit_of period) w.1 ≡ returned (messages ms)
        → in_period v period w.1 ms ≢ []
        → v.complete (asked period (in_period v period w.1 ms)) w.1 ≡ (returned content, s')
        → out ≡ (
          answered (record {
            summary = or_null (truthy_text content) no_summary;
            message_count = length (in_period v period w.1 ms);
            period = period;
            partial = some (is_partial (conversation v (in_period v period w.1 ms)));
          }),
          (
            (w.0 ++ summarized (asked period (in_period v period w.1 ms)) ∷ [])
                ++ sent_if body.send_back (
                    sent session chat (
                      chat_message
                        (describe_period period)
                        (or_null (truthy_text content) no_summary)
                        (is_partial (conversation v (in_period v period w.1 ms))))),
            s'',
          ),
        )
        → Made body session chat period w out

  -- How a request ends; a refused one has no owner.
  pub data Ends (token : Option Text) (body : Body) (w : World v) (out : Answer Summary × World v)
      : Type 0 where
    refused_first :
        (code : ℕ) (reason : Text)
        → ((session chat period : Text) → ¬ (Owner token body w.1 session chat period))
        → out ≡ (refused code reason, w)
        → Ends token body w out
    of_owner :
        (session chat period : Text)
        → Owner token body w.1 session chat period
        → Made body session chat period w out
        → Ends token body w out

  sent_if-appended :
      (back : Bool) (session chat message : Text) (w : World v)
      → (s'' : v.State) × (send_back_if v back session chat message w
          ≡ (w.0 ++ sent_if back (sent session chat message), s''))
  unfolding sent_if
  sent_if-appended true session chat message (log, s) = (v.send session chat message s, refl)
  sent_if-appended false session chat message (log, s) =
      (s, ap (λ l. (l, s)) (sym (append-nil log)))

  completed-Made :
      (body : Body) (session chat period : Text) (all : List Message) (m : Message)
      (ms : List Message) (log : List Call) (s : v.State) (res : Outcome (Option Text) × v.State)
      → v.fetch_messages session chat (limit_of period) s ≡ returned (messages all)
      → in_period v period s all ≡ m ∷ ms
      → v.complete (asked period (m ∷ ms)) s ≡ res
      → Made body session chat period
          (log, s)
          (after_completion v body.send_back session chat period
            (length (m ∷ ms))
            (is_partial (conversation v (m ∷ ms)))
            (log ++ summarized (asked period (m ∷ ms)) ∷ [])
            res)
  completed-Made body session chat period all m ms log s (thrown e, s') fetched found done =
      unsummarized all e s' fetched (λ z. cc) (rw found done) (rw found refl)
  completed-Made body session chat period all m ms log s (returned content, s') fetched found done =
      let summary = or_null (truthy_text content) no_summary in
      let message =
        chat_message (describe_period period) summary (is_partial (conversation v (m ∷ ms))) in
      let after = log ++ summarized (asked period (m ∷ ms)) ∷ [] in
      let (s'', e) = sent_if-appended body.send_back session chat message (after, s') in
      made all content s' s'' fetched (λ z. cc) (rw found done)
        (rw found (
          ap
            (λ x. (
              answered (record {
                summary = summary;
                message_count = length (m ∷ ms);
                period = period;
                partial = some (is_partial (conversation v (m ∷ ms)));
              }),
              x,
            ))
            e))

  summarized-Made :
      (body : Body) (session chat period : Text) (all found : List Message) (w : World v)
      → v.fetch_messages session chat (limit_of period) w.1 ≡ returned (messages all)
      → in_period v period w.1 all ≡ found
      → Made body session chat period w (summarize v body.send_back session chat period found w)
  unfolding summarize
  summarized-Made body session chat period all [] w fetched none_found =
      nothing all fetched none_found refl
  summarized-Made body session chat period all (m ∷ ms) (log, s) fetched some_found =
      completed-Made body session chat period all m ms log s (v.complete (asked period (m ∷ ms)) s)
        fetched some_found refl

  fetched-Made :
      (body : Body) (session chat period : Text) (res : Outcome Fetched) (w : World v)
      → v.fetch_messages session chat (limit_of period) w.1 ≡ res
      → Made body session chat period w (after_fetch v body.send_back session chat period res w)
  fetched-Made body session chat period (thrown e) w h =
      unfetched _ (subst (λ x. NoMessages x (failed e)) (sym h) (threw e)) refl
  fetched-Made body session chat period (returned (bad_status n)) w h =
      unfetched _
        (subst (λ x. NoMessages x (refused 502 (text "Failed to fetch messages: HTTP " ++ n)))
          (sym h) (status n))
        refl
  fetched-Made body session chat period (returned no_array) w h =
      unfetched _
        (subst (λ x. NoMessages x (refused 502 (text "Invalid messages response"))) (sym h)
          unreadable)
        refl
  fetched-Made body session chat period (returned (messages ms)) (log, s) h =
      summarized-Made body session chat period ms (in_period v period s ms) (log, s) h refl

  stranger :
      (user session : Text) (token : Option Text) (body : Body) (s : v.State)
      → user_of_token v.user_of token s ≡ some user
      → truthy_text body.session_id ≡ some session
      → v.owns user session s ≡ false
      → (session' chat period : Text) → ¬ (Owner token body s session' chat period)
  stranger user session token body s signed given lack session' chat period a =
      let e : some user ≡ some a.user = sym signed ∙ a.signed in
      let f : some session ≡ some session' = sym given ∙ a.session_given in
      let own : v.owns a.user session' s ≡ true = a.owner in cc

  -- A request is refused exactly if it lacks the user, an identifier, the period or the user's
  -- instance with the session, and then asks and sends nothing. For the owner of the session the
  -- messages are fetched; if the gateway gives none, that error is answered and nothing is asked.
  -- Otherwise the service is asked once, about the end of the conversation of the period, if the
  -- period has a message, and not at all if it has none. If the service fails, its error is answered
  -- and nothing is sent. Otherwise the summary is answered with the number of its messages, and it
  -- is sent to the chat once, exactly if the body asks for it.
  pub post_summary-Ends :
      (token : Option Text) (body : Body) (w : World v)
      → Ends token body w (post_summary v token body w)
  unfolding post_summary
  post_summary-Ends token body (log, s) =
      let P : Answer Summary × World v → Type 0 = Ends token body (log, s) in
      need-both P _ _ _ _ (λ lack. refused_first _ _ (λ _ _ _ a. absent lack a.signed) refl)
        λ user signed.
          need-both P _ _ _ _
            (λ lack. refused_first _ _ (λ _ _ _ a. absent lack a.session_given) refl)
            λ session a.
              need-both P _ _ _ _
                (λ lack. refused_first _ _ (λ _ _ _ a. absent lack a.chat_given) refl)
                λ chat b.
                  need-both P _ _ _ _
                    (λ lack. refused_first _ _ (λ _ _ _ a. absent lack a.period_given) refl)
                    λ period c.
                      check-both P _ _ _ _
                        (λ lack.
                          refused_first _ _ (stranger user session token body s signed a lack) refl)
                        λ own.
                          of_owner session chat period
                            (record {
                              user = user;
                              signed = signed;
                              session_given = a;
                              chat_given = b;
                              period_given = c;
                              owner = own;
                            })
                            (fetched-Made body session chat period
                              (v.fetch_messages session chat (limit_of period) s) (log, s) refl)
