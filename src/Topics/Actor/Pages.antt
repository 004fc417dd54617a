-- ===== src/Topics/Actor/Pages.antt =====
-- The list of a topic's subscriptions, page by page.
use deltio.Prelude.{
  List, Option, ap, length, none, refl, some, suc, total, zero, ℕ, ◌++◌, ◌+◌, ◌>>=◌, ◌∙◌, ◌≡◌,
  nat_eq, bytes_eq_instance,
}
use deltio.Paging.{Paging, list_page, new_paging}
use deltio.Paging.Pages.{follow, follow-new_paging}
use deltio.Topics.Name.{SubscriptionName, subscription_name_key}
use deltio.Paging.Order.{InOrder, sorted, sorted-InOrder, total-sorted}
use deltio.Topics.Actor.{TopicActor, list_subscriptions, subscription_id_of}

-- A client that starts with the size `asked` and follows the pages of `list_subscriptions`; each
-- request is answered from the same state.
pub follow_subscriptions : ℕ → Paging → TopicActor → Option (List (SubscriptionName × ℕ))
follow_subscriptions zero p a = none
follow_subscriptions (suc requests) p a =
    let (page, next) = list_subscriptions p a in
    let rest = follow_subscriptions requests next a in
    elim next.offset [ none ↦ some page | some n ↦ (rest >>= λ others. some (page ++ others)) ]

follow_subscriptions-follow :
    (requests : ℕ) (p : Paging) (a : TopicActor)
    → follow_subscriptions requests p a
      ≡ follow requests p (sorted subscription_id_of a.subscriptions)
unfolding follow_subscriptions follow list_subscriptions list_page
follow_subscriptions-follow zero p a = refl
follow_subscriptions-follow (suc requests) p a =
    let (page, next) = list_subscriptions p a in
    ap
      (λ (rest : Option (List (SubscriptionName × ℕ))). elim next.offset [
        | none ↦ some page
        | some n ↦ (rest >>= λ others. some (page ++ others))
      ])
      (follow_subscriptions-follow requests next a)

-- Following the pages of a topic's subscriptions from the start, whatever size is asked for, ends
-- and lists every attached subscription once, in the order of the internal IDs.
pub follow_subscriptions_complete :
    (asked : ℕ) (a : TopicActor)
    → (listed : List (SubscriptionName × ℕ)) × (follow_subscriptions
          (length (sorted subscription_id_of a.subscriptions) + 1)
          (new_paging asked none)
          a
        ≡ some listed)
      × InOrder subscription_id_of 0 listed
      × ((f : SubscriptionName × ℕ → ℕ) → total f listed ≡ total f a.subscriptions)
follow_subscriptions_complete asked a = (
  sorted subscription_id_of a.subscriptions,
  follow_subscriptions-follow (length (sorted subscription_id_of a.subscriptions) + 1)
        (new_paging asked none) a
      ∙ follow-new_paging asked (sorted subscription_id_of a.subscriptions),
  sorted-InOrder subscription_id_of a.subscriptions,
  λ f. total-sorted subscription_id_of f a.subscriptions,
)
