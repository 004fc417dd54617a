-- ===== src/Subscriptions/Actor/PendingKeys.antt =====
-- The keys that a pull visits: distinct, and none of them in flight.
use deltio.Prelude.{
  Bytes, List, Map, Unique, [], ap, arith, bytes_eq, bytes_eq_iff, contains, contains-cons,
  contains-nil, false, is_some, lookup, lookup-cons, refl, sym, ◌||◌, ◌∙◌, ◌∷◌, ◌≡◌, nat_eq,
  bytes_eq_instance,
}
use deltio.Topics.Message.{Messages}
use deltio.Subscriptions.Actor.Pull.{pending_keys, sort_in, sort_keys}

abbrev pub Visitable : List Bytes → List Bytes → Type 0
Visitable [] in_flight = Unit
Visitable (k ∷ ks) in_flight =
    (contains k in_flight ≡ false) × (contains k ks ≡ false) × Visitable ks in_flight

contains-sort_in :
    (j k : Bytes) (ks : List Bytes) → contains j (sort_in k ks) ≡ (bytes_eq k j || contains j ks)
unfolding sort_in
contains-sort_in j k [] = rw contains-cons
contains-sort_in j k (l ∷ ks) = ground (
  arith,
  contains-cons j k (l ∷ ks),
  contains-cons j l (sort_in k ks),
  contains-cons j l ks,
  contains-sort_in j k ks,
)

sort_in-Visitable :
    (k : Bytes) (ks in_flight : List Bytes)
    → contains k in_flight ≡ false
    → contains k ks ≡ false
    → Visitable ks in_flight
    → Visitable (sort_in k ks) in_flight
unfolding sort_in
sort_in-Visitable k [] in_flight h n v = (h, n, tt)
sort_in-Visitable k (l ∷ ks) in_flight h n v = ground (
  arith,
  contains-cons k l ks,
  contains-sort_in l k ks,
  bytes_eq_iff k l,
  bytes_eq_iff l k,
  sort_in-Visitable k ks in_flight,
)

contains-sort_keys : (j : Bytes) (ks : List Bytes) → contains j (sort_keys ks) ≡ contains j ks
unfolding sort_keys
contains-sort_keys j [] = refl
contains-sort_keys j (k ∷ ks) =
    contains-sort_in j k (sort_keys ks)
    ∙ ap (λ b. bytes_eq k j || b) (contains-sort_keys j ks)
    ∙ sym (contains-cons j k ks)

sort_keys-Visitable :
    (ks in_flight : List Bytes) → Visitable ks in_flight → Visitable (sort_keys ks) in_flight
unfolding sort_keys
sort_keys-Visitable [] in_flight v = tt
sort_keys-Visitable (k ∷ ks) in_flight v =
    sort_in-Visitable k (sort_keys ks) in_flight v.0 (contains-sort_keys k ks ∙ v.1)
      (sort_keys-Visitable ks in_flight v.2)

pending_keys_absent :
    (j : Bytes) (in_flight : List Bytes) (queues : Map Bytes Messages)
    → is_some (lookup j queues) ≡ false
    → contains j (pending_keys in_flight queues) ≡ false
unfolding pending_keys
pending_keys_absent j in_flight [] h = contains-nil j
pending_keys_absent j in_flight ((k, q) ∷ queues) h = ground (
  arith,
  lookup-cons j k q queues,
  contains-cons j k (pending_keys in_flight queues),
  pending_keys_absent j in_flight queues,
)

pending_keys-Visitable :
    (in_flight : List Bytes) (queues : Map Bytes Messages)
    → Unique queues
    → Visitable (pending_keys in_flight queues) in_flight
unfolding pending_keys
pending_keys-Visitable in_flight [] u = tt
pending_keys-Visitable in_flight ((k, q) ∷ queues) u =
    ground (
      arith,
      pending_keys_absent k in_flight queues u.0,
      pending_keys-Visitable in_flight queues u.1,
    )

pub visited-Visitable :
    (in_flight : List Bytes) (queues : Map Bytes Messages)
    → Unique queues
    → Visitable (sort_keys (pending_keys in_flight queues)) in_flight
visited-Visitable in_flight queues u =
    sort_keys-Visitable _ in_flight (pending_keys-Visitable in_flight queues u)

-- Putting another key in flight leaves a key to be visited.
pub Visitable-still :
    (k : Bytes) (ks before after : List Bytes)
    → ((j : Bytes) → bytes_eq k j ≡ false → contains j after ≡ contains j before)
    → contains k ks ≡ false
    → Visitable ks before
    → Visitable ks after
Visitable-still k [] before after same n v = tt
Visitable-still k (l ∷ ks) before after same n v = (
  ground (arith, same l, contains-cons k l ks, bytes_eq_iff k l, bytes_eq_iff l k),
  v.1,
  Visitable-still k ks before after same (ground (arith, contains-cons k l ks)) v.2,
)
