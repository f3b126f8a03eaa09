-- ===== src/Webhook/Front.antt =====
-- `_read_verified_body`, the front door of the receiver, and the image-level pull signal. The HMAC of
-- a body, Python's `int` of a header and the socket are parameters. The writes of a pull signal succeed.
use Prim.Native.Char.{Char, code}
use Prim.Native.String
use bay.Images.{is_hex}
use bay.Prelude.{
  ℕ, ◌≤◌, String, Bool, true, false, ◌&&◌, ◌||◌, ◌≡◌, inl, inr, refl, sym, ap, ◌∙◌, Option, none,
  some, List, [], ◌∷◌, ◌==◌, string_eq, if◌then◌else◌, ltb, leb, Bool-cases, eq_iff, arith,
}
use bay.Prelude.Assoc.{Assoc, insert, lookup}
use bay.Prelude.Int.{ℤ, pos, negsuc, show_int}
use bay.Prelude.Text.{concat, every, is_empty}
use bay.Filters.{or_nil}
use bay.Webhook.Deliveries.{delivery_is_duplicate}

-- The headers of a request, in ASCII, and its socket, which has a body for each number of bytes read.
pub record Request : Type 0 where
  pub content_length : String
  pub signature : Option String
  pub delivery : String
  pub read : ℕ → String

-- What the front door answers: an error, a duplicate, or the verified body.
pub data Entrance : Type 0 where
  refused : (code : ℕ) (text : String) → Entrance
  duplicate : (delivery : String) → Entrance
  verified : (body signature : String) → Entrance

abbrev pub max_body_bytes : ℕ
max_body_bytes = 1048576

module _ (int_of : String → Option ℤ) (hexdigest : String → String) where
  -- `expected`
  unfoldable pub expected : String → String
  expected body = concat ("sha256=" ∷ hexdigest body ∷ [])

  abbrev pub by_delivery : Request → String → String → Bool × List String → Entrance × List String
  by_delivery request body signature (true, seen) = (duplicate request.delivery, seen)
  by_delivery request body signature (false, seen) = (verified body signature, seen)

  -- `if not signature_header`, the comparison, and the replay check
  abbrev pub by_signature :
      Request → String → List String → String → Option String → Entrance × List String
  by_signature request service seen body none = (refused 401 "Missing signature", seen)
  by_signature request service seen body (some signature) =
      if is_empty signature
      then (refused 401 "Missing signature", seen)
      else if expected body == signature
      then by_delivery request body signature
          (delivery_is_duplicate (request.delivery, service) seen)
      else (refused 403 "Invalid signature", seen)

  abbrev pub by_length : Request → String → List String → Option ℤ → Entrance × List String
  by_length request service seen none = (refused 400 "Invalid Content-Length", seen)
  by_length request service seen (some (negsuc n)) = (refused 400 "Invalid Content-Length", seen)
  by_length request service seen (some (pos n)) =
      if ltb max_body_bytes n
      then (refused 413 "Payload too large", seen)
      else by_signature request service seen (request.read n) request.signature

  -- `_read_verified_body`
  unfoldable pub read_verified_body : Request → String → List String → Entrance × List String
  read_verified_body request service seen =
      by_length request service seen (int_of request.content_length)

  -- The request carries the signature of the body that its length says, within the cap.
  abbrev pub Signed : Request → Type 0
  Signed request =
      (n : ℕ) × (int_of request.content_length ≡ some (pos n))
      × (n ≤ max_body_bytes)
      × (request.signature ≡ some (expected (request.read n)))

  -- A refusal leaves the cache; anything else needs a signed request.
  abbrev pub Guarded : Request → List String → Entrance × List String → Type 0
  Guarded request seen (refused code text, after) = after ≡ seen
  Guarded request seen (answer, after) = Signed request

  by_delivery-Guarded :
      (request : Request) (seen : List String) (body signature : String) (d : Bool × List String)
      → Signed request
      → Guarded request seen (by_delivery request body signature d)
  by_delivery-Guarded request seen body signature (true, after) h = h
  by_delivery-Guarded request seen body signature (false, after) h = h

  by_signature-Guarded :
      (request : Request) (service : String) (seen : List String) (n : ℕ) (o : Option String)
      → int_of request.content_length ≡ some (pos n)
      → n ≤ max_body_bytes
      → request.signature ≡ o
      → Guarded request seen (by_signature request service seen (request.read n) o)
  by_signature-Guarded request service seen n none i le s = refl
  by_signature-Guarded request service seen n (some signature) i le s =
      elim (Bool-cases (is_empty signature)) [
        | inl e ↦ rw e refl
        | inr e ↦ elim (Bool-cases (expected (request.read n) == signature)) [
          | inl same ↦
              let sig = (eq_iff (expected (request.read n)) signature).0 same in
              rw (e, same)
                (by_delivery-Guarded request seen _ signature _ (n, i, le, s ∙ ap some (sym sig)))
          | inr other ↦ rw (e, other) refl
        ]
      ]

  by_length-Guarded :
      (request : Request) (service : String) (seen : List String) (o : Option ℤ)
      → int_of request.content_length ≡ o
      → Guarded request seen (by_length request service seen o)
  by_length-Guarded request service seen none i = refl
  by_length-Guarded request service seen (some (negsuc n)) i = refl
  by_length-Guarded request service seen (some (pos n)) i =
      elim (Bool-cases (ltb max_body_bytes n)) [
        | inl e ↦ rw e refl
        | inr e ↦
            rw e
              (by_signature-Guarded request service seen n request.signature i (ground arith) refl)
      ]

  -- A request that is refused leaves the cache of deliveries as it was. One that is not refused says
  -- a length within the cap, and carries the signature of the body of that length.
  pub read_verified_body-Guarded :
      (request : Request) (service : String) (seen : List String)
      → Guarded request seen (read_verified_body request service seen)
  unfolding read_verified_body
  read_verified_body-Guarded request service seen =
      by_length-Guarded request service seen (int_of request.content_length) refl

-- The text of a pull trigger: the revision and the time only behind it, where they are valid.
unfoldable pub pull_text : String → String → Option ℤ → String
pull_text corr revision built_at =
    let built : String = elim built_at [ none ↦ "" | some t ↦ concat ("\n" ∷ show_int t ∷ []) ] in
    let rest : String = if is_empty revision then "" else concat ("\n" ∷ revision ∷ built ∷ []) in
    concat (corr ∷ "\npull" ∷ rest ∷ [])

-- writes the same trigger for each service
unfoldable pub write_all : String → List String → Assoc String → Assoc String
write_all text [] triggers = triggers
write_all text (name ∷ l) triggers = write_all text l (insert name text triggers)

-- `[0-9a-fA-F]{7,64}` on the whole text
unfoldable pub is_revision : String → Bool
is_revision revision =
    let n = String.count revision in
    leb 7 n && leb n 64 && every (λ c. is_hex c || is_upper_hex c) revision
  where
    is_upper_hex : Char → Bool
    is_upper_hex c = leb 65 (code c) && leb (code c) 70

abbrev pub valid_revision : String → String
valid_revision revision = if is_revision revision then revision else ""

-- `built_at` of the body, where it is an int, without a negative one
abbrev pub valid_time : Option ℤ → Option ℤ
valid_time none = none
valid_time (some (pos n)) = some (pos n)
valid_time (some (negsuc n)) = none

-- `_handle_pull_image` behind the image reference: the services that it triggers, and the triggers
unfoldable pub pull_image :
    Assoc (List String)
    → String
    → String
    → String
    → Option ℤ
    → Assoc String
    → List String × Assoc String
pull_image image_map corr image revision built_at triggers =
    let services : List String = or_nil (lookup image image_map) in
    let text = pull_text corr (valid_revision revision) (valid_time built_at) in
    (services, write_all text services triggers)
