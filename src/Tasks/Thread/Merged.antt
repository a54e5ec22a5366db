-- ===== src/Tasks/Thread/Merged.antt =====
-- The order and the content of the conversation about a task.
use mathlib.Core.List.{Permᴰ}
use zapi_pwa.Base.{ℕ, ◌≡◌, refl, some, Option, List, ◌++◌, map, Text}
use zapi_pwa.Routes.{answered, user_of_token}
use zapi_pwa.Sorting.{IsSorted, with_key, sort_by-IsSorted, sort_by-Permᴰ, sort_by_stable}
use zapi_pwa.Tasks.Thread.{
  Services, ThreadItem, Conversation, comment_item, message_item, group_messages, group_of,
  thread_of, get_thread,
}

module _ (v : Services) where
  -- The comments, then the messages.
  abbrev pub parts : Text → Text → v.State → List ThreadItem
  parts user id s =
      map (comment_item user) (v.comments_of id s)
      ++ map message_item (group_messages v (v.find_task id s) s)

  pub record IsMerged (user id : Text) (s : v.State) (c : Conversation) : Type 0 where
    pub sorted : IsSorted (λ i. i.timestamp) c.items
    pub complete : Permᴰ (parts user id s) c.items
    pub stable :
        (t : ℕ)
        → with_key (λ i. i.timestamp) t c.items ≡ with_key (λ i. i.timestamp) t (parts user id s)
    pub group : c.group_jid ≡ group_of (v.find_task id s)

  -- A signed-in user gets every internal comment of the task and every message of its group that
  -- the gateway answers with, once each and no other item, in the order of their times, where
  -- comments stand before messages of the same time and those of one kind keep their order.
  pub get_thread-IsMerged :
      (token : Option Text) (user id : Text) (s : v.State)
      → user_of_token v.user_of token s ≡ some user
      → (c : Conversation) × (get_thread v token id s ≡ answered c) × IsMerged user id s c
  unfolding get_thread
  get_thread-IsMerged token user id s signed = (
    thread_of v user id s,
    rw (signed, get_thread) refl,
    unfold thread_of in
        record {
          sorted = sort_by-IsSorted (λ i. i.timestamp) (parts user id s);
          complete = sort_by-Permᴰ (λ i. i.timestamp) (parts user id s);
          stable = λ t. sort_by_stable (λ i. i.timestamp) t (parts user id s);
          group = refl;
        },
  )
