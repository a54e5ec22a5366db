-- ===== src/Instances.antt =====
-- The routes of packages/pwa/src/app/api/instances that change something: the instances of a user,
-- their sessions at the gateway, and the groups they transcribe. The authentication service, the
-- database, the gateway and the Z-API service are a parameter; the calls that change something are
-- recorded in a log, newest last.
pub mod Scoped
pub mod Reordering
use zapi_pwa.Base.{
  ℕ, zero, suc, ◌+◌, ◌≡◌, Bool, true, false, not, ◌&&◌, ◌||◌, Option, none, some, List, [], ◌∷◌,
  ◌++◌, if◌then◌else◌, Text, text, text_eq, is_text,
}
use zapi_pwa.Effect.{Outcome, returned, thrown}
use zapi_pwa.Strings.{ends_with}
use zapi_pwa.Routes.{need, check, truthy_text, or_null, Answer, refused, failed, answered}

-- The columns of an instance that are read.
pub record Info : Type 0 where
  pub provider : Text
  pub waclaw_session_id : Option Text
  pub zapi_instance_id : Text

pub record GroupRow : Type 0 where
  pub group_id : Text
  pub subject : Text
  pub subject_owner : Option Text
  pub group_lid : Option Text
  pub transcribe_all : Bool
  pub send_reply : Bool
  pub monitor_daily : Bool

-- A body with the fields of the types that the handler expects.
pub record GroupBody : Type 0 where
  pub group_id : Option Text
  pub subject : Option Text
  pub subject_owner : Option Text
  pub group_lid : Option Text
  pub transcribe_all : Option Bool
  pub send_reply : Option Bool
  pub monitor_daily : Option Bool

pub record Session : Type 0 where
  pub connected : Bool
  pub phone : Option Text

-- The Z-API status.
pub record ZapiStatus : Type 0 where
  pub connected : Bool
  pub phone_connected : Option Text
  pub session_token : Option Text

-- The response of a service: an error with its status and its text, or what it sends.
pub data Reply (A : Type 0) : Type 0 where
  bad : ℕ → Text → Reply A
  good : A → Reply A

pub record StatusUpdate : Type 0 where
  pub connected_phone : Option Text
  pub connected_lid : Option Text
  pub my_phones : Option (List Text)

pub data Call : Type 0 where
  order_set : Text → Text → ℕ → Call
  session_created : Text → Call
  instance_inserted : Text → Text → Text → Call
  session_deleted : Text → Call
  instance_deleted : Text → Text → Call
  renamed : Text → Text → Text → Call
  status_updated : Text → StatusUpdate → Call
  marked_connecting : Text → Call
  zapi_connected : Text → Option Text → Option Text → Call
  session_cached : Text → Text → Call
  group_upserted : Text → GroupRow → Call
  group_updated : Text → Text → GroupBody → Call
  group_deleted : Text → Text → Call

pub data Request : Type 0 where
  reorder : Option (List Text) → Request
  create : Option (Option Text) → Request
  rename : Text → Option Text → Request
  remove : Text → Request
  poll_status : Text → Request
  start_qr : Option Text → Request
  poll_qr : Option Text → Request
  upsert_group : Text → GroupBody → Request
  update_group : Text → Text → GroupBody → Request
  delete_group : Text → Text → Request

pub record Services : Type 1 where
  pub State : Type 0
  pub user_of : Text → State → Option Text
  -- An instance, if it is the user's.
  pub find_own : Text → Text → State → Option Info
  pub run : Call → State → Outcome (Unit {0}) × State
  -- A new session of the gateway; the text of an error is its status.
  pub create_session : Text → State → Outcome (Reply Text) × State
  pub status_of : Text → State → Outcome Session
  -- The QR code and the status of an instance of Z-API.
  pub zapi_qr : Text → State → Outcome (Reply (Unit {0}))
  pub zapi_status : Text → State → Outcome (Reply ZapiStatus)

-- An identifier of the form `…@lid` is no telephone number.
unfoldable pub status_update : Text → StatusUpdate
unfolding ends_with
status_update phone =
    if ends_with phone (text "@lid")
    then record { connected_phone = none; connected_lid = some phone; my_phones = none }
    else record {
      connected_phone = some phone;
      connected_lid = none;
      my_phones = some (phone ∷ []);
    }

-- The phone of a session that is connected.
unfoldable pub connected_phone : Session → Option Text
connected_phone session = if session.connected then truthy_text session.phone else none

-- The row of the body, where its two fields are given.
abbrev pub group_row : GroupBody → Option GroupRow
group_row b = named b.group_id b.subject
  where
    named : Option Text → Option Text → Option GroupRow
    named (some g) (some t) = some (record {
      group_id = g;
      subject = t;
      subject_owner = b.subject_owner;
      group_lid = b.group_lid;
      transcribe_all = or_null b.transcribe_all false;
      send_reply = or_null b.send_reply true;
      monitor_daily = or_null b.monitor_daily false;
    })
    named _ _ = none

abbrev is_given {ℓ} : {A : Type ℓ} → Option A → Bool
is_given none = false
is_given (some a) = true

abbrev pub has_update : GroupBody → Bool
has_update b =
    is_given b.transcribe_all
    || is_given b.send_reply
    || is_given b.monitor_daily
    || is_given b.subject

-- The session that is to be removed with an instance.
abbrev pub session_to_delete : Info → Option Text
session_to_delete i =
    if text_eq i.provider (text "waclaw") then truthy_text i.waclaw_session_id else none

module _ (v : Services) where
  abbrev pub World : Type 0
  World = List Call × v.State

  abbrev pub Handler : Type 0
  Handler = World → Answer (Unit {0}) × World

  abbrev pub done : Handler
  done w = (answered tt, w)

  abbrev pub after_call :
      Handler → List Call → Outcome (Unit {0}) × v.State → Answer (Unit {0}) × World
  after_call k log (thrown e, s) = (refused 500 e, (log, s))
  after_call k log (returned _, s) = k (log, s)

  -- A call whose error ends the request.
  unfoldable pub perform_call : Call → Handler → Handler
  perform_call c k (log, s) = after_call k (log ++ c ∷ []) (v.run c s)

  -- A call whose error is ignored.
  unfoldable pub try_call : Call → Handler → Handler
  try_call c k (log, s) = k (log ++ c ∷ [], (v.run c s).1)

  abbrev pub after_last_call : List Call → Outcome (Unit {0}) × v.State → Answer (Unit {0}) × World
  after_last_call log (thrown e, s) = (failed e, (log, s))
  after_last_call log (returned _, s) = done (log, s)

  -- A last call whose error is thrown.
  unfoldable pub last_call : Call → Handler
  last_call c (log, s) = after_last_call (log ++ c ∷ []) (v.run c s)

  -- The updates of `PATCH` of instances, from the `n`-th on.
  unfoldable pub reorder_from : Text → ℕ → List Text → Handler
  reorder_from user n [] w = done w
  reorder_from user n (id ∷ ids) w =
      perform_call (order_set user id n) (reorder_from user (n + 1) ids) w

  abbrev pub after_session :
      Text → Text → List Call → Outcome (Reply Text) × v.State → Answer (Unit {0}) × World
  after_session user name log (thrown e, s) =
      (refused 502 (text "waclaw unreachable: " ++ e), (log, s))
  after_session user name log (returned (bad n e), s) =
      (refused 502 (text "waclaw session creation failed: " ++ e), (log, s))
  after_session user name log (returned (good session), s) =
      perform_call (instance_inserted user name session) done (log, s)

  -- `POST` of instances
  unfoldable pub create_instance : Text → Option Text → Handler
  create_instance user name (log, s) =
      let n = or_null name (text "Minha Instância") in
      after_session user n (log ++ session_created n ∷ []) (v.create_session n s)

  -- `DELETE` of instances/[id]
  unfoldable pub delete_instance : Text → Text → Handler
  delete_instance user id (log, s) =
      need (v.find_own user id s) (refused 404 (text "Instance not found"))
        (λ i w. elim (session_to_delete i) [
          | none ↦ perform_call (instance_deleted user id) done w
          | some session ↦
              try_call (session_deleted session) (perform_call (instance_deleted user id) done) w
        ])
        (log, s)

  -- `PATCH` of instances/[id]
  unfoldable pub rename_instance : Text → Text → Option Text → Handler
  rename_instance user id name w =
      need name (refused 400 (text "No updatable fields"))
        (λ n. perform_call (renamed user id n) done) w

  abbrev pub store_phone : Text → Option Text → Handler
  store_phone id none w = done w
  store_phone id (some phone) w = try_call (status_updated id (status_update phone)) done w

  abbrev pub after_status : Text → Outcome Session → Handler
  after_status id (thrown e) w = (refused 502 e, w)
  after_status id (returned session) w = store_phone id (connected_phone session) w

  -- `GET` of instances/[id]/status
  unfoldable pub get_status : Text → Text → Handler
  get_status user id (log, s) =
      need (v.find_own user id s) (refused 404 (text "instance not found or not waclaw"))
        (λ i.
          need (truthy_text i.waclaw_session_id)
            (refused 404 (text "instance not found or not waclaw"))
            (λ session. after_status id (v.status_of session s)))
        (log, s)

  abbrev pub after_qr : Text → Outcome (Reply (Unit {0})) → Handler
  after_qr id (thrown e) w = (failed e, w)
  after_qr id (returned (bad n e)) w = (refused n (text "Z-API error: " ++ e), w)
  after_qr id (returned (good _)) w = try_call (marked_connecting id) done w

  -- `POST` of instances/qr
  unfoldable pub post_qr : Text → Option Text → Handler
  post_qr user instance (log, s) =
      need (truthy_text instance) (refused 400 (text "instance_id required"))
        (λ id.
          need (v.find_own user id s) (refused 404 (text "Instance not found"))
            (λ i. after_qr id (v.zapi_qr id s)))
        (log, s)

  abbrev pub after_zapi_status : Text → Info → Outcome (Reply ZapiStatus) → Handler
  after_zapi_status id i (thrown e) w = (failed e, w)
  after_zapi_status id i (returned (bad n e)) w = (refused n (text "Z-API error: " ++ e), w)
  after_zapi_status id i (returned (good z)) w =
      if z.connected
      then try_call
          (zapi_connected id (truthy_text z.phone_connected) (truthy_text z.session_token))
          (last_call (
            session_cached i.zapi_instance_id
              (or_null (truthy_text z.session_token) (text "connected"))))
          w
      else done w

  -- `GET` of instances/qr
  unfoldable pub get_qr : Text → Option Text → Handler
  get_qr user instance (log, s) =
      need (truthy_text instance) (refused 400 (text "instance_id required"))
        (λ id.
          need (v.find_own user id s) (refused 404 (text "Instance not found"))
            (λ i. after_zapi_status id i (v.zapi_status id s)))
        (log, s)

  -- `authAndOwn` of the routes of the groups, for a user
  unfoldable pub own_groups : Text → Text → Handler → Handler
  own_groups user id k (log, s) =
      need (v.find_own user id s) (refused 403 (text "forbidden")) (λ i. k) (log, s)

  -- `POST` of instances/[id]/groups
  unfoldable pub post_group : Text → Text → GroupBody → Handler
  unfolding own_groups
  post_group user id b = own_groups user id (
      need (group_row b) (refused 400 (text "group_id and subject required"))
        (λ row. perform_call (group_upserted id row) done))

  -- `PATCH` of instances/[id]/groups/[groupId]
  unfoldable pub patch_group : Text → Text → Text → GroupBody → Handler
  unfolding own_groups
  patch_group user id group b = own_groups user id (
      check (has_update b) (refused 400 (text "no valid fields"))
        (perform_call (group_updated id group b) done))

  -- `DELETE` of instances/[id]/groups/[groupId]
  unfoldable pub remove_group : Text → Text → Text → Handler
  unfolding own_groups
  remove_group user id group = own_groups user id (perform_call (group_deleted id group) done)

  unfoldable pub handle_as : Request → Text → Handler
  handle_as (reorder none) user w = (refused 400 (text "invalid payload"), w)
  handle_as (reorder (some order)) user w = reorder_from user 0 order w
  handle_as (create none) user w = (refused 400 (text "invalid payload"), w)
  handle_as (create (some name)) user w = create_instance user name w
  handle_as (rename id name) user w = rename_instance user id name w
  handle_as (remove id) user w = delete_instance user id w
  handle_as (poll_status id) user w = get_status user id w
  handle_as (start_qr instance) user w = post_qr user instance w
  handle_as (poll_qr instance) user w = get_qr user instance w
  handle_as (upsert_group id b) user w = post_group user id b w
  handle_as (update_group id group b) user w = patch_group user id group b w
  handle_as (delete_group id group) user w = remove_group user id group w

  -- The refusal of a request without a user.
  abbrev pub no_user : Request → Answer (Unit {0})
  no_user (upsert_group id b) = refused 403 (text "forbidden")
  no_user (update_group id group b) = refused 403 (text "forbidden")
  no_user (delete_group id group) = refused 403 (text "forbidden")
  no_user (poll_status id) = refused 401 (text "unauthorized")
  no_user request = refused 401 (text "Unauthorized")

  -- A request with its token.
  unfoldable pub handle_request : Option Text → Request → Handler
  unfolding handle_as
  handle_request token request (log, s) =
      need (truthy_text token) (no_user request)
        (λ t. need (v.user_of t s) (no_user request) (handle_as request)) (log, s)
