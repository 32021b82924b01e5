-- ===== src/Store/Exact.antt =====
-- A codec of the review states that loses nothing, for examples: a text ends with a 0, and its code
-- points are counted from 1.
use frigate_notifications.Prelude.{
  ℕ, zero, suc, ◌≡◌, refl, Bool, true, false, Option, none, some, List, [], ◌∷◌, Text, length,
}
use frigate_notifications.Store.Interface.{Codec, IsLossless}
use frigate_notifications.Store.{Delivery, ReviewState}

abbrev and_then : {A B : Type 0} → Option A → (A → Option B) → Option B
and_then none f = none
and_then (some a) f = f a

abbrev put_text : Text → Text → Text
put_text [] rest = 0 ∷ rest
put_text (c ∷ t) rest = suc c ∷ put_text t rest

abbrev get_text : Text → Option (Text × Text)
get_text [] = none
get_text (zero ∷ rest) = some ([], rest)
get_text (suc c ∷ rest) = and_then (get_text rest) (λ p. some (c ∷ p.0, p.1))

abbrev get_number : Text → Option (ℕ × Text)
get_number [] = none
get_number (n ∷ rest) = some (n, rest)

abbrev bit : Bool → ℕ
bit true = 1
bit false = 0

abbrev bit_of : ℕ → Bool
bit_of zero = false
bit_of (suc n) = true

abbrev put_deliveries : List Delivery → Text
put_deliveries [] = []
put_deliveries (d ∷ ds) =
    d.target ∷ put_text d.recipient (put_text d.ref (put_text d.tag (put_deliveries ds)))

abbrev get_deliveries : ℕ → Text → Option (List Delivery)
get_deliveries zero t = some []
get_deliveries (suc n) t = and_then (get_number t) (λ a. and_then (get_text a.1) (λ b.
    and_then (get_text b.1) (λ c. and_then (get_text c.1) (λ d.
      and_then (get_deliveries n d.1)
        (λ ds. some (record { recipient = b.0; target = a.0; ref = c.0; tag = d.0 } ∷ ds))))))

abbrev put_state : ReviewState → Text
put_state st =
    st.rule_index
    ∷ bit st.critical
    ∷ length st.deliveries
    ∷ put_text st.rule_name (
        put_text st.tag (put_text st.event_id (put_text st.payload (put_deliveries st.deliveries))))

abbrev get_texts : ℕ → ℕ → ℕ → Text → Option ReviewState
get_texts index critical count t = and_then (get_text t) (λ a. and_then (get_text a.1) (λ b.
    and_then (get_text b.1) (λ c. and_then (get_text c.1) (λ d.
      and_then (get_deliveries count d.1) (λ ds. some (record {
        rule_index = index;
        rule_name = a.0;
        tag = b.0;
        deliveries = ds;
        critical = bit_of critical;
        event_id = c.0;
        payload = d.0;
      }))))))

abbrev get_state : Text → Option ReviewState
get_state (index ∷ critical ∷ count ∷ t) = get_texts index critical count t
get_state _ = none

abbrev pub review_state : Codec ReviewState
review_state = record { encode = put_state; decode = get_state }

get_put_text : (t rest : Text) → get_text (put_text t rest) ≡ some (t, rest)
get_put_text [] rest = refl
get_put_text (c ∷ t) rest = rw (get_put_text t rest)

get_put_deliveries : (ds : List Delivery) → get_deliveries (length ds) (put_deliveries ds) ≡ some ds
get_put_deliveries [] = refl
get_put_deliveries (d ∷ ds) = rw (
  get_put_text d.recipient (put_text d.ref (put_text d.tag (put_deliveries ds))),
  get_put_text d.ref (put_text d.tag (put_deliveries ds)),
  get_put_text d.tag (put_deliveries ds),
  get_put_deliveries ds,
)

bit_of-bit : (b : Bool) → bit_of (bit b) ≡ b
bit_of-bit true = refl
bit_of-bit false = refl

pub review_state-IsLossless : IsLossless review_state
review_state-IsLossless = record {
  decode-encode = λ st.
      let ds = put_deliveries st.deliveries in
      rw (
        get_put_text st.rule_name (put_text st.tag (put_text st.event_id (put_text st.payload ds))),
        get_put_text st.tag (put_text st.event_id (put_text st.payload ds)),
        get_put_text st.event_id (put_text st.payload ds),
        get_put_text st.payload ds,
        get_put_deliveries st.deliveries,
        bit_of-bit st.critical,
      );
}
