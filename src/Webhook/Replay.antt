-- ===== src/Webhook/Replay.antt =====
-- What the cache of deliveries keeps out, and what it lets through.
use bay.Prelude.{
  ℕ, suc, ◌+◌, ◌≤◌, ◌<◌, String, true, false, ◌≡◌, ◌⊎◌, inl, inr, refl, some, List, [], ◌∷◌, ◌++◌,
  map, ◌==◌, string_eq, ltb, arith, eq_iff, Bool-cases, eqb_refl, false≢true,
}
use bay.Prelude.Assoc.{contains, length, In, contains-In, In-append_iff}
use bay.Prelude.Text.{is_empty}
use bay.Webhook.Deliveries.{
  cache_size, trim, move_to_end, is_duplicate, Delivery, delivery_key, delivery_is_duplicate,
  deliver, behind, Recent, contains-behind, behind-append_one, behind-move_to_end_same,
  move_other-Recent, behind-trim,
}

behind-append_new :
    (l : List String) (key : String)
    → contains l key ≡ false
    → behind key (l ++ (key ∷ [])) ≡ some 0
unfolding behind contains length
behind-append_new [] key h = rw (eqb_refl key) refl
behind-append_new (k ∷ l) key h = elim (Bool-cases (k == key)) [
  | inl e ↦ absurd (ground arith)
  | inr e ↦ rw e (behind-append_new l key (ground arith))
]

-- A key that was just delivered is the youngest.
delivered_youngest :
    (size : ℕ) (key : String) (seen : List String)
    → 0 < size
    → behind key ((is_duplicate size key seen).1) ≡ some 0
unfolding is_duplicate
delivered_youngest size key seen pos = elim (Bool-cases (contains seen key)) [
  | inl e ↦ rw e (behind-move_to_end_same seen key)
  | inr e ↦ rw e (behind-trim size _ key 0 pos (behind-append_new seen key e))
]

-- Another delivery makes a key older by at most one.
is_duplicate-Recent :
    (size n : ℕ) (key k : String) (seen : List String)
    → suc n ≤ size
    → Recent key n seen
    → Recent key (suc n) ((is_duplicate size k seen).1)
unfolding is_duplicate
is_duplicate-Recent size n key k seen le (m, h, lt) = elim (Bool-cases (contains seen k)) [
  | inr e ↦ rw e (
    suc m,
    behind-trim size _ key (suc m) (omega arith) (behind-append_one seen key k m h),
    omega arith,
  )
  | inl e ↦ elim (Bool-cases (k == key)) [
    | inl same ↦
        let k_is : k ≡ key = (eq_iff k key).0 same in
        rw (e, k_is) (0, behind-move_to_end_same seen key, omega arith)
    | inr other ↦ let (a, b, c) = move_other-Recent seen key k m other h in rw e (a, b, omega arith)
  ]
]

delivery_is_duplicate-Recent :
    (n : ℕ) (key : String) (d : Delivery) (seen : List String)
    → suc n ≤ cache_size
    → Recent key n seen
    → Recent key (suc n) ((delivery_is_duplicate d seen).1)
unfolding delivery_is_duplicate
delivery_is_duplicate-Recent n key d seen le (m, h, lt) = elim (Bool-cases (is_empty (d.0))) [
  | inl e ↦ rw e (m, h, omega arith)
  | inr e ↦ rw e (is_duplicate-Recent cache_size n key (delivery_key d) seen le (m, h, lt))
]

deliver-Recent :
    (n : ℕ) (key : String) (others : List Delivery) (seen : List String)
    → n + length others ≤ cache_size
    → Recent key n seen
    → Recent key (n + length others) (deliver others seen)
unfolding deliver length
deliver-Recent n key [] seen le (m, h, lt) = (m, h, omega arith)
deliver-Recent n key (d ∷ l) seen le r =
    let room : suc n + length l ≤ cache_size = omega arith in
    let step = delivery_is_duplicate-Recent n key d seen (omega arith) r in
    let (m, h, lt) = deliver-Recent (suc n) key l ((delivery_is_duplicate d seen).1) room step in
    (m, h, omega arith)

named_youngest :
    (d : Delivery) (seen : List String)
    → is_empty (d.0) ≡ false
    → behind (delivery_key d) ((delivery_is_duplicate d seen).1) ≡ some 0
unfolding delivery_is_duplicate
named_youngest d seen named =
    rw named (delivered_youngest cache_size (delivery_key d) seen (omega arith))

kept_refused :
    (d : Delivery) (seen : List String)
    → is_empty (d.0) ≡ false
    → contains seen (delivery_key d) ≡ true
    → (delivery_is_duplicate d seen).0 ≡ true
unfolding delivery_is_duplicate is_duplicate
kept_refused d seen named there = rw (named, there) refl

-- A delivery with an id that comes again, behind fewer than 256 others, is refused as a replay,
-- whatever was accepted before it.
pub replay_refused :
    (d : Delivery) (others : List Delivery) (seen : List String)
    → is_empty (d.0) ≡ false
    → length others < cache_size
    → (delivery_is_duplicate d (deliver others ((delivery_is_duplicate d seen).1))).0 ≡ true
replay_refused d others seen named few =
    let start : Recent (delivery_key d) 1 ((delivery_is_duplicate d seen).1) =
      (0, named_youngest d seen named, omega arith) in
    let (m, h, lt) = deliver-Recent 1 (delivery_key d) others _ (omega arith) start in
    kept_refused d _ named (contains-behind _ (delivery_key d) m h)

In-trim : (size : ℕ) (l : List String) (x : String) → In x (trim size l) → In x l
unfolding trim
In-trim size [] x h = h
In-trim size (k ∷ l) x h = elim (Bool-cases (ltb size (suc (length l)))) [
  | inl e ↦ inr (In-trim size l x (rw e at h))
  | inr e ↦ rw e at h
]

In-move_to_end :
    (key : String) (l : List String) (x : String) → In x (move_to_end key l) → (x ≡ key) ⊎ In x l
unfolding move_to_end
In-move_to_end key [] x h = h
In-move_to_end key (k ∷ l) x h = elim (Bool-cases (k == key)) [
  | inl e ↦ later (In-move_to_end key l x (rw e at h))
  | inr e ↦ split (In-move_to_end key l x) (rw e at h)
]
  where
    later : (x ≡ key) ⊎ In x l → (x ≡ key) ⊎ In x (k ∷ l)
    later (inl p) = inl p
    later (inr m) = inr (inr m)

    split :
        (In x (move_to_end key l) → (x ≡ key) ⊎ In x l)
        → In x (k ∷ move_to_end key l)
        → (x ≡ key) ⊎ In x (k ∷ l)
    split rest (inl e) = inr (inl e)
    split rest (inr m) = later (rest m)

-- What is in the cache has been delivered, or was in it before.
In-delivered :
    (d : Delivery) (seen : List String) (x : String)
    → In x ((delivery_is_duplicate d seen).1)
    → (x ≡ delivery_key d) ⊎ In x seen
unfolding delivery_is_duplicate is_duplicate
In-delivered d seen x h = elim (Bool-cases (is_empty (d.0))) [
  | inl e ↦ inr (rw e at h)
  | inr e ↦ elim (Bool-cases (contains seen (delivery_key d))) [
    | inl c ↦ In-move_to_end (delivery_key d) seen x (rw (e, c) at h)
    | inr c ↦ appended (In-trim cache_size _ x (rw (e, c) at h))
  ]
]
  where
    appended : In x (seen ++ (delivery_key d ∷ [])) → (x ≡ delivery_key d) ⊎ In x seen
    appended m = elim ((In-append_iff x seen (delivery_key d ∷ [])).0 m) [
      | inl old ↦ inr old
      | inr (inl e) ↦ inl e
      | inr (inr z) ↦ absurd z
    ]

In-deliver :
    (l : List Delivery) (seen : List String) (x : String)
    → In x (deliver l seen)
    → In x (map delivery_key l) ⊎ In x seen
unfolding deliver
In-deliver [] seen x h = inr h
In-deliver (d ∷ l) seen x h = elim (In-deliver l ((delivery_is_duplicate d seen).1) x h) [
  | inl m ↦ inl (inr m)
  | inr m ↦ elim (In-delivered d seen x m) [ inl e ↦ inl (inl e) | inr old ↦ inr old ]
]

refused_kept :
    (d : Delivery) (seen : List String)
    → (delivery_is_duplicate d seen).0 ≡ true
    → In (delivery_key d) seen
unfolding delivery_is_duplicate is_duplicate
refused_kept d seen h = elim (Bool-cases (is_empty (d.0))) [
  | inl e ↦ absurd (false≢true (rw e at h))
  | inr e ↦ elim (Bool-cases (contains seen (delivery_key d))) [
    | inl c ↦ contains-In seen (delivery_key d) c
    | inr c ↦ absurd (false≢true (rw (e, c) at h))
  ]
]

-- A receiver that has just started refuses a delivery only if one with the same id and service, as
-- the key joins them, was among the deliveries before it.
pub refused_was_delivered :
    (l : List Delivery) (d : Delivery)
    → (delivery_is_duplicate d (deliver l [])).0 ≡ true
    → In (delivery_key d) (map delivery_key l)
refused_was_delivered l d h = elim (In-deliver l [] (delivery_key d) (refused_kept d _ h)) [
  | inl m ↦ m
  | inr z ↦ absurd z
]
