-- ===== src/Edge/Flight.antt =====
-- The requests for one object that run at once, in ensure of services/edge-agent/cmd/edge-agent/cache.go:
-- the map `inflight` and the channels that its waiters receive from.
use smart_deploy_linux.Prelude.Table.{count, count-append}
use smart_deploy_linux.Prelude.{
  inl, inr, ◌⊎◌, ℕ, ◌+◌, ◌≡◌, refl, Bool, true, false, List, [], ◌∷◌, ◌++◌, map, if◌then◌else◌,
  arith,
}

-- Where a request is: before its Stat, before the lock after a Stat that found nothing, at the channel
-- of the request that fills, in fill, behind fill and before the second lock, or back.
pub data Phase : Type 0 where
  stat lock waiting filling : Phase
  over : Bool → Phase
  returned : Bool → Phase

pub record Flight : Type 0 where
  pub cached : Bool
  pub inflight : Bool
  pub requests : List Phase

-- The request that has put the object into the map and not yet taken it out.
abbrev pub is_in_charge : Phase → Bool
is_in_charge filling = true
is_in_charge (over _) = true
is_in_charge _ = false

abbrev pub is_waiting : Phase → Bool
is_waiting waiting = true
is_waiting _ = false

-- close(done): every waiter goes back to its Stat.
abbrev pub wake : Phase → Phase
wake waiting = stat
wake p = p

infix 40 ◌⇒◌
pub data ◌⇒◌ : Flight → Flight → Type 0 where
  hit :
      (busy : Bool) (xs ys : List Phase)
      → record { cached = true; inflight = busy; requests = xs ++ (stat ∷ ys) }
        ⇒ record { cached = true; inflight = busy; requests = xs ++ (returned true ∷ ys) }
  miss :
      (busy : Bool) (xs ys : List Phase)
      → record { cached = false; inflight = busy; requests = xs ++ (stat ∷ ys) }
        ⇒ record { cached = false; inflight = busy; requests = xs ++ (lock ∷ ys) }
  join :
      (there : Bool) (xs ys : List Phase)
      → record { cached = there; inflight = true; requests = xs ++ (lock ∷ ys) }
        ⇒ record { cached = there; inflight = true; requests = xs ++ (waiting ∷ ys) }
  begin :
      (there : Bool) (xs ys : List Phase)
      → record { cached = there; inflight = false; requests = xs ++ (lock ∷ ys) }
        ⇒ record { cached = there; inflight = true; requests = xs ++ (filling ∷ ys) }
  cancel :
      (there busy : Bool) (xs ys : List Phase)
      → record { cached = there; inflight = busy; requests = xs ++ (waiting ∷ ys) }
        ⇒ record { cached = there; inflight = busy; requests = xs ++ (returned false ∷ ys) }
  renamed :
      (there busy : Bool) (xs ys : List Phase)
      → record { cached = there; inflight = busy; requests = xs ++ (filling ∷ ys) }
        ⇒ record { cached = true; inflight = busy; requests = xs ++ (over true ∷ ys) }
  failed :
      (there busy : Bool) (xs ys : List Phase)
      → record { cached = there; inflight = busy; requests = xs ++ (filling ∷ ys) }
        ⇒ record { cached = there; inflight = busy; requests = xs ++ (over false ∷ ys) }
  release :
      (there busy ok : Bool) (xs ys : List Phase)
      → record { cached = there; inflight = busy; requests = xs ++ (over ok ∷ ys) } ⇒ record {
        cached = there;
        inflight = false;
        requests = map wake xs ++ (returned ok ∷ map wake ys);
      }
  evict :
      (there busy : Bool) (xs : List Phase)
      → record { cached = there; inflight = busy; requests = xs }
        ⇒ record { cached = false; inflight = busy; requests = xs }
  arrive :
      (there busy : Bool) (xs : List Phase)
      → record { cached = there; inflight = busy; requests = xs }
        ⇒ record { cached = there; inflight = busy; requests = xs ++ (stat ∷ []) }

infix 40 ◌⇒*◌
pub data ◌⇒*◌ : Flight → Flight → Type 0 where
  stay : {f : Flight} → f ⇒* f
  step : {f g h : Flight} → f ⇒ g → g ⇒* h → f ⇒* h

abbrev pub as_number : Bool → ℕ
as_number b = if b then 1 else 0

-- The map has the object exactly while one request is in charge, and who waits, waits for that one.
pub record IsGuarded (f : Flight) : Type 0 where
  pub one : count is_in_charge f.requests ≡ as_number f.inflight
  pub no_idle : (f.inflight ≡ true) ⊎ (count is_waiting f.requests ≡ 0)

-- How a request that moves changes a count.
count-move :
    (p : Phase → Bool) (xs ys : List Phase) (x y : Phase)
    → count p (xs ++ (y ∷ ys)) + as_number (p x) ≡ count p (xs ++ (x ∷ ys)) + as_number (p y)
unfolding count
count-move p xs ys x y = omega (arith, count-append p xs (x ∷ ys), count-append p xs (y ∷ ys))

filling-wake : (xs : List Phase) → count is_in_charge (map wake xs) ≡ count is_in_charge xs
unfolding count
filling-wake [] = refl
filling-wake (x ∷ xs) = ground (arith, filling-wake xs)

waiting-wake : (xs : List Phase) → count is_waiting (map wake xs) ≡ 0
unfolding count
waiting-wake [] = refl
waiting-wake (x ∷ xs) = ground (arith, waiting-wake xs)

filling-end :
    (xs ys : List Phase) (ok : Bool)
    → count is_in_charge (map wake xs ++ (returned ok ∷ map wake ys)) + 1
      ≡ count is_in_charge (xs ++ (over ok ∷ ys))
unfolding count
filling-end xs ys ok = omega (
  arith,
  count-append is_in_charge (map wake xs) (returned ok ∷ map wake ys),
  count-append is_in_charge xs (over ok ∷ ys),
  filling-wake xs,
  filling-wake ys,
)

waiting-end :
    (xs ys : List Phase) (ok : Bool)
    → count is_waiting (map wake xs ++ (returned ok ∷ map wake ys)) ≡ 0
unfolding count
waiting-end xs ys ok = omega (
  arith,
  count-append is_waiting (map wake xs) (returned ok ∷ map wake ys),
  waiting-wake xs,
  waiting-wake ys,
)

count-arrive :
    (p : Phase → Bool) (xs : List Phase) → p stat ≡ false → count p (xs ++ (stat ∷ [])) ≡ count p xs
unfolding count
count-arrive p xs other = ground (arith, count-append p xs (stat ∷ []))

step-IsGuarded : {f g : Flight} → f ⇒ g → IsGuarded f → IsGuarded g
step-IsGuarded (hit busy xs ys) v = record {
  one = ground (arith, v.one, count-move is_in_charge xs ys stat (returned true));
  no_idle = ground (arith, v.no_idle, count-move is_waiting xs ys stat (returned true));
}
step-IsGuarded (miss busy xs ys) v = record {
  one = ground (arith, v.one, count-move is_in_charge xs ys stat lock);
  no_idle = ground (arith, v.no_idle, count-move is_waiting xs ys stat lock);
}
step-IsGuarded (join there xs ys) v = record {
  one = ground (arith, v.one, count-move is_in_charge xs ys lock waiting);
  no_idle = inl refl;
}
step-IsGuarded (begin there xs ys) v = record {
  one = ground (arith, v.one, count-move is_in_charge xs ys lock filling);
  no_idle = inl refl;
}
step-IsGuarded (cancel there busy xs ys) v = record {
  one = ground (arith, v.one, count-move is_in_charge xs ys waiting (returned false));
  no_idle = ground (arith, v.no_idle, count-move is_waiting xs ys waiting (returned false));
}
step-IsGuarded (renamed there busy xs ys) v = record {
  one = ground (arith, v.one, count-move is_in_charge xs ys filling (over true));
  no_idle = ground (arith, v.no_idle, count-move is_waiting xs ys filling (over true));
}
step-IsGuarded (failed there busy xs ys) v = record {
  one = ground (arith, v.one, count-move is_in_charge xs ys filling (over false));
  no_idle = ground (arith, v.no_idle, count-move is_waiting xs ys filling (over false));
}
step-IsGuarded (release there busy ok xs ys) v = record {
  one = ground (arith, v.one, filling-end xs ys ok);
  no_idle = inr (waiting-end xs ys ok);
}
step-IsGuarded (evict there busy xs) v = record { one = v.one; no_idle = v.no_idle }
step-IsGuarded (arrive there busy xs) v = record {
  one = ground (arith, v.one, count-arrive is_in_charge xs refl);
  no_idle = ground (arith, v.no_idle, count-arrive is_waiting xs refl);
}

from_IsGuarded : {f g : Flight} → f ⇒* g → IsGuarded f → IsGuarded g
from_IsGuarded stay v = v
from_IsGuarded (step s rest) v = from_IsGuarded rest (step-IsGuarded s v)

-- In every order of the steps of any number of requests for one object, and of its evictions, at most
-- one of them is at a time between putting it into the map and taking it out, where its download lies,
-- the map has the object exactly while one is, and whoever waits, waits for that one.
pub reachable-IsGuarded :
    (there : Bool) (g : Flight)
    → record { cached = there; inflight = false; requests = [] } ⇒* g
    → IsGuarded g
unfolding count
reachable-IsGuarded there g path = from_IsGuarded path (record { one = refl; no_idle = inr refl })
