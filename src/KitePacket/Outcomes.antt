-- ===== src/KitePacket/Outcomes.antt =====
-- protocol/KitePacket.cpp and its callers: what a result says about the parts that it came from.
use kiteq_client_cpp.Base.{◌≡◌, refl, Option, none, some}
use kiteq_client_cpp.KitePacket.{Outcome, done, fault, out_of_fuel, ◌>>=◌, or_fault}

pub fault-not-done : {A : Type 0} {a : A} → fault ≡ done a → ⊥
fault-not-done e = cc

pub done-injective : {A : Type 0} {a b : A} → done a ≡ done b → a ≡ b
done-injective e = cc

-- What succeeds has succeeded in each of its parts.
pub >>=-done :
    {A B : Type 0} (o : Outcome A) (f : A → Outcome B) (b : B)
    → (o >>= f) ≡ done b
    → (a : A) × (o ≡ done a) × (f a ≡ done b)
>>=-done (done a) f b e = (a, refl, e)
>>=-done fault f b e = cc
>>=-done out_of_fuel f b e = cc

-- A pointer that is not null can be followed.
pub known-done :
    {A B : Type 0} (o : Option A) (a : A) (f : A → B)
    → o ≡ some a
    → (b : B) × ((or_fault o >>= λ x. done (f x)) ≡ done b)
known-done none a f e = cc
known-done (some x) a f e = (f x, refl)
