-- ===== src/Controller/Listing/Pages.antt =====
-- The pagination at the end of ListVolumes and ListSnapshots.
use exoscale_csi_driver.Base.{
  ℕ, zero, suc, ◌+◌, ◌-◌, ◌≤◌, ◌<◌, String, ◌≡◌, sym, ap, ◌∙◌, ◌⊎◌, inl, inr, true, false, ◌||◌,
  List, ◌++◌, arith, str_eq, ltb, leb, ◌==◌, if◌then◌else◌, Bool-cases, str_eq-false, ◌+ℤ◌, ◌-ℤ◌,
  ◌≤ℤ◌, ◌<ℤ◌, wrap64, IsInt64, wrap64-of_IsInt64, ℤ, length, take, drop, take-append-drop,
  drop-drop, Action, pure, lift, ◌>>=◌, pos, negsuc, errorf, no_args, slice_out_of_range, ok, err,
  panic,
}
use exoscale_csi_driver.Base.Decimal.{itoa, atoi-itoa, itoa-ne-empty}
use exoscale_csi_driver.Controller.Listing.{paginate, slice_from, slice, parse_token}

-- The two sums of the pagination do not wrap for lists of a real size.
wrap64-sub : (l n : ℕ) → n ≤ l → l ≤ 4611686018427387904 → wrap64 (pos l -ℤ pos n) ≡ pos (l - n)
wrap64-sub l n h small =
    let e : pos l -ℤ pos n ≡ pos (l - n) = ground arith in
    ap wrap64 e ∙ wrap64-of_IsInt64 (pos (l - n)) (omega arith)

wrap64-add :
    (n m : ℕ) → n ≤ 4611686018427387904 → m ≤ 2147483647 → wrap64 (pos n +ℤ pos m) ≡ pos (n + m)
wrap64-add n m hn hm =
    let e : pos n +ℤ pos m ≡ pos (n + m) = ground arith in
    ap wrap64 e ∙ wrap64-of_IsInt64 (pos (n + m)) (omega arith)

module _ {E : Type 0} (entries : List E) where
  slice_from-pos : (n : ℕ) → n ≤ length entries → slice_from (pos n) entries ≡ ok (drop n entries)
  unfolding slice_from
  slice_from-pos n h = ground arith

  slice-pos :
      (n m : ℕ)
      → n + m ≤ length entries
      → slice (pos n) (pos (n + m)) entries ≡ ok (take m (drop n entries))
  unfolding slice
  slice-pos n m h =
      let e : n + m - n ≡ m = omega arith in ground (arith, ap (λ k. take k (drop n entries)) e)

module _ {E : Type 0} (entries : List E) where
  -- The page that begins at `n`, and the token of the next one.
  pub page_at : ℕ → ℕ → List E × String
  page_at m n = (
    if m == 0
        then drop n entries
        else if ltb (length entries - n) m
        then drop n entries
        else take m (drop n entries),
    if m == 0 || ltb (length entries - n) m then "" else itoa (pos (n + m)),
  )

module _ {E : Type 0} (entries : List E) (m n : ℕ) where
  page_at-last :
      1 ≤ m → ltb (length entries - n) m ≡ true → page_at entries m n ≡ (drop n entries, "")
  unfolding page_at
  page_at-last h last = let e : (m == 0) ≡ false = ground arith in rw (last, e)

  page_at-more :
      1 ≤ m
      → ltb (length entries - n) m ≡ false
      → page_at entries m n ≡ (take m (drop n entries), itoa (pos (n + m)))
  unfolding page_at
  page_at-more h more = let e : (m == 0) ≡ false = ground arith in rw (more, e)

  page-and-rest : take m (drop n entries) ++ drop (n + m) entries ≡ drop n entries
  page-and-rest =
      ap (λ r. take m (drop n entries) ++ r) (sym (drop-drop m n entries))
      ∙ take-append-drop m (drop n entries)

module _ {E : Type 0} (entries : List E) (small : length entries ≤ 4611686018427387904) where
  -- With at most 2^62 entries, a start within them and a limit that is not negative and fits 32
  -- bits give a page: all that is left when the limit is 0, else at most as many entries as the
  -- limit. The next token is empty if the limit is 0 or more than what is left, else the number at
  -- which the next page begins.
  pub paginate_page :
      (m n : ℕ)
      → n ≤ length entries
      → m ≤ 2147483647
      → paginate (pos m) (pos n) entries ≡ ok (page_at entries m n)
  unfolding paginate page_at
  paginate_page m n hn hm =
      rw (wrap64-sub (length entries) n hn small, wrap64-add n m (omega arith) hm)
        (ground (arith, slice_from-pos entries n, slice-pos entries n m))

module _ {E : Type 0} (entries : List E) where
  slice_from_low : (n : ℤ) → n <ℤ pos 0 → slice_from n entries ≡ panic slice_out_of_range
  unfolding slice_from
  slice_from_low n h = ground arith

  slice_from_high :
      (n : ℤ) → pos (length entries) <ℤ n → slice_from n entries ≡ panic slice_out_of_range
  unfolding slice_from
  slice_from_high n h = ground arith

  slice_low : (n hi : ℤ) → n <ℤ pos 0 → slice n hi entries ≡ panic slice_out_of_range
  unfolding slice
  slice_low n hi h = ground arith

  slice_high :
      (n hi : ℤ) → pos (length entries) <ℤ n → slice n hi entries ≡ panic slice_out_of_range
  unfolding slice
  slice_high n hi h = ground arith

  slice_reversed : (n hi : ℤ) → hi <ℤ n → slice n hi entries ≡ panic slice_out_of_range
  unfolding slice
  slice_reversed n hi h = ground arith

-- The end of the page lies before its start.
reversed_panics :
    {E : Type 0} (entries : List E) (j k : ℕ)
    → length entries ≤ 4611686018427387904
    → j < 2147483648
    → k ≤ length entries
    → paginate (negsuc j) (pos k) entries ≡ panic slice_out_of_range
unfolding paginate
reversed_panics entries j k small hj hk =
    let e : wrap64 (pos k +ℤ negsuc j) ≡ pos k +ℤ negsuc j =
      wrap64-of_IsInt64 (pos k +ℤ negsuc j) (ground arith, ground arith) in
    rw (wrap64-sub (length entries) k hk small, e)
      (ground (arith, slice_reversed entries (pos k) (pos k +ℤ negsuc j)))

negative_panics :
    {E : Type 0} (entries : List E) (m n : ℤ)
    → length entries ≤ 4611686018427387904
    → m <ℤ pos 0
    → pos 0 ≤ℤ m +ℤ pos 2147483648
    → paginate m n entries ≡ panic slice_out_of_range
negative_panics entries (pos j) n small h lo = absurd (omega arith)
negative_panics entries (negsuc j) (negsuc k) small h lo =
    unfold paginate in
    ground (
      arith,
      slice_from_low entries (negsuc k),
      slice_low entries (negsuc k) (wrap64 (negsuc k +ℤ negsuc j)),
    )
negative_panics entries (negsuc j) (pos k) small h lo = elim (Bool-cases (leb k (length entries))) [
  | inl e ↦ reversed_panics entries j k small (ground arith) (ground arith)
  | inr e ↦
      unfold paginate in
      ground (
        arith,
        slice_from_high entries (pos k),
        slice_high entries (pos k) (wrap64 (pos k +ℤ negsuc j)),
      )
]

-- With at most 2^62 entries, a limit of 32 bits and a start of 64 bits: a start outside the
-- entries, or a negative limit, makes a slice expression panic.
pub paginate_panics :
    {E : Type 0} (entries : List E) (max_entries number_results : ℤ)
    → length entries ≤ 4611686018427387904
    → IsInt64 number_results
    → pos 0 ≤ℤ max_entries +ℤ pos 2147483648
    → max_entries ≤ℤ pos 2147483647
    → (number_results <ℤ pos 0) ⊎ (pos (length entries) <ℤ number_results) ⊎ (max_entries <ℤ pos 0)
    → paginate max_entries number_results entries ≡ panic slice_out_of_range
unfolding paginate
paginate_panics entries m n small hn lo hi (inl low) =
    ground (arith, slice_from_low entries n low, slice_low entries n (wrap64 (n +ℤ m)) low)
paginate_panics entries m n small hn lo hi (inr (inl high)) =
    ground (arith, slice_from_high entries n high, slice_high entries n (wrap64 (n +ℤ m)) high)
paginate_panics entries m n small hn lo hi (inr (inr negative)) =
    negative_panics entries m n small negative lo

token-ne-empty : (n : ℕ) → str_eq (itoa (pos n)) "" ≡ false
token-ne-empty n = str_eq-false _ _ (itoa-ne-empty n)

-- The token that the pagination writes for a number below 2^63 is read back as that number.
pub parse_token-itoa : (n : ℕ) → n ≤ 9223372036854775807 → parse_token (itoa (pos n)) ≡ ok (pos n)
unfolding parse_token
parse_token-itoa n h = rw (token-ne-empty n, atoi-itoa n h)

-- A client that asks for page after page until the next token is empty. A client that is out of
-- fuel fails.
module _ {W E : Type 0} (list : ℤ → String → Action W (List E × String)) where
  pub fetch_all : ℕ → ℤ → String → Action W (List E)
  fetch_all zero max_entries token = lift (err (errorf "too many pages" no_args))
  fetch_all (suc fuel) max_entries token = do
    (page, next) ← list max_entries token
    let rest = fetch_all fuel max_entries next
    (if str_eq next "" then pure page else (do more ← rest; pure (page ++ more)))

  module _ (m : ℕ) (entries : List E) (w : W) (small : length entries ≤ 4611686018427387904)
      (positive : 1 ≤ m) (int32 : m ≤ 2147483647)
      (pages : (n : ℕ) (token : String)
        → parse_token token ≡ ok (pos n)
        → n ≤ length entries
        → list (pos m) token w ≡ (ok (page_at entries m n), w)) where
    pub fetch_all-drop :
        (fuel n : ℕ) (token : String)
        → parse_token token ≡ ok (pos n)
        → n ≤ length entries
        → length entries < fuel + n
        → fetch_all fuel (pos m) token w ≡ (ok (drop n entries), w)
    unfolding fetch_all
    fetch_all-drop zero n token ht hn hf = absurd (omega arith)
    fetch_all-drop (suc fuel) n token ht hn hf =
        rw (pages n token ht hn) (elim (Bool-cases (ltb (length entries - n) m)) [
          | inl last ↦ rw (page_at-last entries m n positive last)
          | inr more ↦
              rw
                (
                  page_at-more entries m n positive more,
                  token-ne-empty (n + m),
                  fetch_all-drop fuel (n + m) (itoa (pos (n + m)))
                      (parse_token-itoa (n + m) (ground arith)) (ground arith) (omega arith),
                )
                (ap (λ l. (ok l, w)) (page-and-rest entries m n))
        ])
