-- ===== src/Web/Picker/Requests.antt =====
-- web/src/components/DirectoryPicker.tsx: the requests that a picker sends.
use agent_web_mvp.Prelude.{
  ℕ, ◌+◌, ◌≤◌, ◌≡◌, refl, String, Bool, true, false, ◌&&◌, ◌||◌, not, List, [], ◌∷◌, Option, none,
  some, length, length-append, truthy, is_some, ◌==◌, arith, eq_refl, Bool-cases, inl, inr,
}
use agent_web_mvp.Types.{DirEntry, ServerMessage, dir_listing}
use agent_web_mvp.Session.Title.{trim}
use agent_web_mvp.Web.Picker

-- The things that the user does which may send a request.
abbrev pub navigations : List Picker.Happening → ℕ
navigations [] = 0
navigations (Picker.enter ∷ hs) = 1 + navigations hs
navigations (Picker.clicks_parent ∷ hs) = 1 + navigations hs
navigations (Picker.clicks_entry name ∷ hs) = 1 + navigations hs
navigations (_ ∷ hs) = navigations hs

abbrev one : Bool → ℕ
one true = 1
one false = 0

abbrev IsBounded : ℕ → Picker.Picker → Type 0
IsBounded n p = length p.sent ≤ n + one p.tried_home_fallback

moved : (n k l o : ℕ) → l ≤ (1 + n + k) + o → l ≤ (n + (1 + k)) + o
moved n k l o v = omega arith

untried : (a t b : Bool) → (a && (not t && b)) ≡ true → t ≡ false
untried a false b e = refl
untried true true b e = cc
untried false true b e = cc

first_fallback : (n l : ℕ) (t : Bool) → t ≡ false → l ≤ n + one t → l + 1 ≤ n + one true
first_fallback n l true t v = cc
first_fallback n l false t v = omega arith

within : (n : ℕ) (p : Picker.Picker) → IsBounded (1 + n) p → length p.sent ≤ 2 + n
within n p v =
    elim p.tried_home_fallback as (λ b. length p.sent ≤ (1 + n) + one b → length p.sent ≤ 2 + n) [
      | true ↦ λ w. omega arith
      | false ↦ λ w. omega arith
    ]
      v

module _ (to_lower : String → String) (random_id : ℕ → String) (device_id : Option String) where
  fetch-IsBounded :
      (n : ℕ) (target : String) (p : Picker.Picker)
      → IsBounded n p
      → IsBounded (1 + n) (Picker.fetch_dir to_lower random_id device_id target p)
  unfolding Picker.fetch_dir
  fetch-IsBounded n target p v = rw (length-append p.sent (_ ∷ [])) (omega arith)

  later : (n : ℕ) (p : Picker.Picker) → IsBounded n p → IsBounded (1 + n) p
  later n p v = omega arith

  listing-IsBounded :
      (n : ℕ) (path : String) (parent : Option String) (entries : List DirEntry)
      (error : Option String) (p : Picker.Picker)
      → IsBounded n p
      → IsBounded n (Picker.on_listing to_lower random_id device_id path parent entries error p)
  unfolding Picker.on_listing Picker.fetch_dir
  listing-IsBounded n path parent entries error p v =
      elim (Bool-cases
        (is_some (truthy error) && (not p.tried_home_fallback && not (path == "")))) [
          | inl e ↦
              let t = untried (is_some (truthy error)) p.tried_home_fallback (not (path == "")) e in
              rw e (
                rw (length-append p.sent (_ ∷ []))
                  (first_fallback n (length p.sent) p.tried_home_fallback t v))
          | inr e ↦ rw e v
        ]

  message-IsBounded :
      (n : ℕ) (m : ServerMessage) (p : Picker.Picker)
      → IsBounded n p
      → IsBounded n (Picker.on_message to_lower random_id device_id m p)
  unfolding Picker.on_message
  message-IsBounded n (dir_listing id path parent entries error) p v =
      elim (Bool-cases (id == p.request_id)) [
        | inl e ↦ rw e (listing-IsBounded n path parent entries error p v)
        | inr e ↦ rw e v
      ]
  message-IsBounded n _ p v = v

  entry-IsBounded :
      (n : ℕ) (l : Option Picker.Listing) (es : List DirEntry) (p : Picker.Picker)
      → IsBounded n p
      → IsBounded (1 + n) (Picker.enter_entry to_lower random_id device_id l es p)
  entry-IsBounded n (some l) (e ∷ []) p v = fetch-IsBounded n _ p v
  entry-IsBounded n (some l) [] p v = later n p v
  entry-IsBounded n (some l) (e ∷ f ∷ es) p v = later n p v
  entry-IsBounded n none es p v = later n p v

  enter-IsBounded :
      (n : ℕ) (p : Picker.Picker)
      → IsBounded n p
      → IsBounded (1 + n) (Picker.on_enter to_lower random_id device_id p)
  unfolding Picker.on_enter
  enter-IsBounded n p v = elim (Bool-cases (trim p.query == "")) [
    | inl e ↦ rw e (later n p v)
    | inr e ↦ elim (Bool-cases (Picker.looks_like_absolute_path (trim p.query))) [
      | inl f ↦ rw (e, f) (fetch-IsBounded n _ p v)
      | inr f ↦ rw (e, f) (entry-IsBounded n p.listing _ p v)
    ]
  ]

  up-IsBounded :
      (n : ℕ) (l : Option Picker.Listing) (p : Picker.Picker)
      → IsBounded n p
      → IsBounded (1 + n) (Picker.go_up to_lower random_id device_id l p)
  up-IsBounded n none p v = later n p v
  up-IsBounded n (some l) p v =
      elim (truthy l.parent)
        as (λ o. IsBounded (1 + n) (elim o [
          | none ↦ p
          | some parent ↦ Picker.fetch_dir to_lower random_id device_id parent p
        ])) [ none ↦ later n p v | some parent ↦ fetch-IsBounded n parent p v ]

  name-IsBounded :
      (n : ℕ) (name : String) (l : Option Picker.Listing) (p : Picker.Picker)
      → IsBounded n p
      → IsBounded (1 + n) (Picker.enter_name to_lower random_id device_id name l p)
  name-IsBounded n name none p v = later n p v
  name-IsBounded n name (some l) p v = fetch-IsBounded n _ p v

  use-IsBounded :
      (n : ℕ) (l : Option Picker.Listing) (p : Picker.Picker)
      → IsBounded n p
      → IsBounded n (Picker.use_folder to_lower random_id device_id l p)
  use-IsBounded n none p v = v
  use-IsBounded n (some l) p v = elim (Bool-cases (l.path == "" || is_some (truthy l.error))) [
    | inl e ↦ rw e v
    | inr e ↦ rw e v
  ]

  runs-IsBounded :
      (n : ℕ) (hs : List Picker.Happening) (p : Picker.Picker)
      → IsBounded n p
      → IsBounded (n + navigations hs) (Picker.run to_lower random_id device_id hs p)
  unfolding Picker.run Picker.act
  runs-IsBounded n [] p v = omega arith
  runs-IsBounded n (Picker.hears m ∷ hs) p v = runs-IsBounded n hs _ (message-IsBounded n m p v)
  runs-IsBounded n (Picker.types_query q ∷ hs) p v = runs-IsBounded n hs (record p { query = q }) v
  runs-IsBounded n (Picker.escape ∷ hs) p v = runs-IsBounded n hs (record p { query = "" }) v
  runs-IsBounded n (Picker.uses_folder ∷ hs) p v =
      runs-IsBounded n hs _ (use-IsBounded n p.listing p v)
  runs-IsBounded n (Picker.enter ∷ hs) p v =
      moved n (navigations hs) _ _ (runs-IsBounded (1 + n) hs _ (enter-IsBounded n p v))
  runs-IsBounded n (Picker.clicks_parent ∷ hs) p v =
      moved n (navigations hs) _ _ (runs-IsBounded (1 + n) hs _ (up-IsBounded n p.listing p v))
  runs-IsBounded n (Picker.clicks_entry name ∷ hs) p v =
      moved n (navigations hs) _ _
        (runs-IsBounded (1 + n) hs _ (name-IsBounded n name p.listing p v))

  -- Whatever a picker hears, also when it is told of errors again and again: it sends the request of its opening,
  -- at most one for each key or click of the user, and at most one more, for the home directory.
  pub requests_bounded :
      (hs : List Picker.Happening) (initial_path : String)
      → length
          (Picker.run to_lower random_id device_id hs
            (Picker.opened to_lower random_id device_id initial_path)).sent
        ≤ 2 + navigations hs
  unfolding Picker.opened
  requests_bounded hs initial_path =
      within (navigations hs)
        (Picker.run to_lower random_id device_id hs
          (Picker.opened to_lower random_id device_id initial_path))
        (runs-IsBounded 1 hs (Picker.opened to_lower random_id device_id initial_path)
          (omega arith))

  -- A reply with an error to the user's first navigation that fails, wherever the picker then stands: the error
  -- is not shown, but the home directory is asked for, and its listing is what the picker shows in the end.
  failed_navigation_goes_home :
      (p : Picker.Picker) (path e home : String) (parent : Option String) (entries : List DirEntry)
      → p.tried_home_fallback ≡ false
      → (path == "") ≡ false
      → (e == "") ≡ false
      → (Picker.run to_lower random_id device_id
          (Picker.hears (dir_listing p.request_id path none [] (some e))
            ∷ Picker.hears (dir_listing (random_id p.drawn) home parent entries none)
            ∷ [])
          p).listing
        ≡ some (record { path = home; parent = parent; entries = entries; error = none })
  unfolding Picker.run Picker.act Picker.on_message Picker.on_listing Picker.fetch_dir
  failed_navigation_goes_home p path e home parent entries t n m =
      rw (eq_refl p.request_id) (rw m (rw t (rw n (rw (eq_refl (random_id p.drawn)) refl))))
