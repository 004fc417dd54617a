-- ===== src/Tests/Registry.antt =====
-- A topic manager after a few calls.
use deltio.Prelude.{
  List, [], arith, codes, false, if◌then◌else◌, insert, length, lookup, none, refl, remove, some,
  total, true, weigh, ℕ, ◌+◌, ◌∷◌, ◌≡◌, nat_eq,
}
use deltio.Topics.Name.{TopicName, topic_name_key}
use deltio.Topics.Manager.{
  Topic, TopicManager, new_topic, topic_id_of, topic_name_of, topic_is_in_project,
}
use deltio.Paging.{new_paging}
use deltio.Paging.Order.{InOrder}
use deltio.Registry.{create_entry, delete_entry, new_state}
use deltio.Registry.Laws.{IsValid, new_state-IsValid}
use deltio.Registry.Calls.{
  Call, create, get, delete, run, replay, names_in, run-refines, run-IsValid,
}
use deltio.Registry.Listing.{in_project, follow_project, follow_project_complete}

abbrev empty : TopicManager
empty = new_state

abbrev first_name : TopicName
first_name = record { project_id = codes "p"; topic_id = codes "first" }

abbrev second_name : TopicName
second_name = record { project_id = codes "p"; topic_id = codes "second" }

-- The second creation fails, and the third succeeds again.
abbrev calls : List (Call TopicName Topic)
calls =
    create first_name (new_topic first_name)
    ∷ create first_name (new_topic first_name)
    ∷ get first_name
    ∷ create second_name (new_topic second_name)
    ∷ delete first_name
    ∷ get first_name
    ∷ create first_name (new_topic first_name)
    ∷ []

answers : (run calls empty).1 ≡ true ∷ false ∷ true ∷ true ∷ true ∷ false ∷ true ∷ []
unfolding run create_entry delete_entry lookup insert remove
answers = refl

run-refines_example :
    (names_in (run calls empty).0 ≡ (replay calls (names_in empty)).0)
    × ((run calls empty).1 ≡ (replay calls (names_in empty)).1)
run-refines_example = run-refines calls empty

abbrev managed : TopicManager
managed = (run calls empty).0

run-IsValid_example : IsValid topic_id_of topic_name_of managed
run-IsValid_example =
    run-IsValid topic_id_of topic_name_of calls empty
      (λ id. (refl, refl), (λ id. (refl, refl), (λ id. (refl, refl), (λ id. (refl, refl), tt))))
      (omega arith) (new_state-IsValid topic_id_of topic_name_of)

follow_project_complete_example :
    (listed : List Topic) × (follow_project topic_id_of
        (topic_is_in_project (codes "p"))
        (length (in_project topic_id_of (topic_is_in_project (codes "p")) managed) + 1)
        (new_paging 1 none)
        managed
      ≡ some listed)
    × InOrder topic_id_of 0 listed
    × ((f : Topic → ℕ)
        → total f listed
          ≡ weigh (λ v. if topic_is_in_project (codes "p") v then f v else 0) managed.entries)
follow_project_complete_example =
    follow_project_complete topic_id_of (topic_is_in_project (codes "p")) 1 managed
