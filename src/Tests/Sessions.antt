-- ===== src/Tests/Sessions.antt =====
-- The instances of a user and the summaries of their chats.
use zapi_pwa.Base.{
  ℕ, ◌+◌, ◌*◌, ◌≤◌, ◌<◌, ◌%◌, ◌≡◌, refl, ap, sym, Bool, true, false, ◌&&◌, none, some, List, [],
  ◌∷◌, ◌++◌, if◌then◌else◌, get_elem?, length, Text, text, text_eq, mem_text, arith,
}
use zapi_pwa.Effect.{returned}
use zapi_pwa.Instances.{Call, order_set, remove, perform_call, reorder_from, handle_request}
use zapi_pwa.Instances.Scoped.{request-IsScoped}
use zapi_pwa.Instances.Scoped
use zapi_pwa.Instances.Reordering.{IsTable, reorder-IsPlaced}
use zapi_pwa.Summary.{
  Message, messages, Body, hour, day, resolve_cutoff, max_chars, shorten, is_partial, post_summary,
}
use zapi_pwa.Summary.Window.{resolve_cutoff_today, shorten-IsEnd}
use zapi_pwa.Summary.Made.{post_summary-Ends}
use zapi_pwa.Summary.Made

abbrev owned : Text → Text → Bool
unfolding text_eq
owned user id = text_eq user (text "u") && mem_text id (text "a" ∷ text "b" ∷ [])

abbrev set_order : Call → (Text → ℕ) → Text → ℕ
set_order (order_set user id n) s j = if text_eq j id && owned user j then n else s j
set_order call s j = s j

-- Orders of the instances of one user.
abbrev shelf : zapi_pwa.Instances.Services
shelf = record {
  State = Text → ℕ;
  user_of = λ token s. some (text "u");
  find_own = λ user id s.
      if owned user id
      then some (record {
        provider = text "waclaw";
        waclaw_session_id = some (text "s");
        zapi_instance_id = [];
      })
      else none;
  run = λ c s. (returned tt, set_order c s);
  create_session = λ name s. (returned (zapi_pwa.Instances.good (text "s")), s);
  status_of = λ session s. returned (record { connected = false; phone = none });
  zapi_qr = λ id s. returned (zapi_pwa.Instances.good tt);
  zapi_status = λ id s. returned (zapi_pwa.Instances.bad 500 []);
}

abbrev shelf-IsTable : IsTable shelf
shelf-IsTable = record {
  order_of = λ j s. s j;
  owns = λ user j s. owned user j;
  order_of-run = λ user id n s s' h j. sym (ap (λ r. r.1 j) h);
  owns-run = λ user id n s s' h j. refl;
}

request-IsScoped_example :
    Scoped.Ends shelf
      (some (text "k"))
      ([], λ j. 0)
      (handle_request shelf (some (text "k")) (remove (text "a")) ([], λ j. 0))
request-IsScoped_example = request-IsScoped shelf (some (text "k")) (remove (text "a")) ([], λ j. 0)

abbrev new_order : List Text
new_order = text "b" ∷ text "a" ∷ text "x" ∷ []

abbrev reordered : List Call × (Text → ℕ)
reordered = (
  order_set (text "u") (text "b") 0
      ∷ order_set (text "u") (text "a") 1
      ∷ order_set (text "u") (text "x") 2
      ∷ [],
  set_order (order_set (text "u") (text "x") 2) (
      set_order (order_set (text "u") (text "a") 1)
        (set_order (order_set (text "u") (text "b") 0) (λ j. 7))),
)

reorder-IsPlaced_example :
    ((k : ℕ) (id : Text)
      → get_elem? new_order k ≡ some id
      → owned (text "u") id ≡ true
      → reordered.1 id ≡ k)
    × ((j : Text) → (mem_text j new_order && owned (text "u") j) ≡ false → reordered.1 j ≡ 7)
unfolding reorder_from perform_call text_eq
reorder-IsPlaced_example =
    reorder-IsPlaced shelf shelf-IsTable (text "u") new_order ([], λ j. 7) reordered refl
      (refl, (refl, (refl, tt)))

abbrev chat_service : zapi_pwa.Summary.Services
chat_service = record {
  State = Unit {0};
  user_of = λ token s. some (text "u");
  owns = λ user session s. true;
  now = λ s. 1800000000000;
  time_text = λ t. text "now";
  prompt = λ label conversation. label ++ conversation;
  fetch_messages = λ session chat limit s. returned (
      messages (
        record {
          sender_name = some (text "Ana");
          text = some (text "oi");
          timestamp = 1799999999;
          kind = text "text";
          media_caption = none;
          from_me = false;
        }
        ∷ []));
  complete = λ prompt s. (returned (some (text "Ana disse oi")), s);
  send = λ session to message s. s;
}

abbrev wanted : Body
wanted = record {
  session_id = some (text "s");
  chat_jid = some (text "1@c.us");
  period = some (text "24h");
  send_back = true;
}

post_summary-Ends_example :
    Made.Ends chat_service
      (some (text "k"))
      wanted
      ([], tt)
      (post_summary chat_service (some (text "k")) wanted ([], tt))
post_summary-Ends_example = post_summary-Ends chat_service (some (text "k")) wanted ([], tt)

resolve_cutoff_today_example :
    (resolve_cutoff (text "hoje") 1800000000000 ≤ 1800000000000)
    × (1800000000000 < resolve_cutoff (text "hoje") 1800000000000 + day)
    × (resolve_cutoff (text "hoje") 1800000000000 % day ≡ 3 * hour)
resolve_cutoff_today_example = resolve_cutoff_today 1800000000000 (omega arith)

shorten-IsEnd_example :
    (left_out : Text) × (left_out ++ shorten (text "[now] Ana: oi") ≡ text "[now] Ana: oi")
    × (length (shorten (text "[now] Ana: oi")) ≤ max_chars)
    × (length (shorten (text "[now] Ana: oi"))
        ≡ (if is_partial (text "[now] Ana: oi") then max_chars else length (text "[now] Ana: oi")))
shorten-IsEnd_example = shorten-IsEnd (text "[now] Ana: oi")
