-- ===== src/Audit/Recent/Buffer.antt =====
-- The ring buffer of Recent in internal/audit/recent.go: it reads back the last elements that were
-- put in, the newest first.
use repo_ark.Prelude.{
  ℕ, zero, suc, ◌+◌, ◌-◌, ◌%◌, ◌<◌, ◌≤◌, ◌≡◌, refl, sym, ◌∙◌, ap, Bool, List, [], ◌∷◌, ltb, leb,
  ◌==◌, if◌then◌else◌, arith, length, take, min, drop, false,
}

pub record Ring (A : Type 0) : Type 0 where
  pub slots : List A
  pub next : ℕ
  pub count : ℕ

-- start - i, with limit added where that is negative: once, as i is below the limit.
abbrev pub position : ℕ → ℕ → ℕ → ℕ
position limit start i = if leb i start then start - i else start + limit - i

abbrev pub start_of : ℕ → ℕ → ℕ
start_of limit next = if next == 0 then limit - 1 else next - 1

next-mod : (n limit : ℕ) → n < limit → (n + 1) % limit ≡ (if n + 1 == limit then 0 else n + 1)
next-mod n limit h = grind arith

-- The place that was written is where reading starts,
start_of-next : (n limit : ℕ) → n < limit → start_of limit ((n + 1) % limit) ≡ n
start_of-next n limit h = rw (next-mod n limit h) ground arith

-- and the element before is read from where reading started.
position-next :
    (n limit i : ℕ)
    → n < limit
    → suc i < limit
    → position limit n (suc i) ≡ position limit (start_of limit n) i
position-next n limit i h p = ground arith

position-other :
    (n limit i : ℕ) → n < limit → suc i < limit → (n == position limit n (suc i)) ≡ false
position-other n limit i h p = ground arith

module _ {A : Type 0} where
  -- make([]Record, limit)
  abbrev pub repeat : A → ℕ → List A
  repeat a zero = []
  repeat a (suc n) = a ∷ repeat a n

  abbrev pub empty_ring : A → ℕ → Ring A
  empty_ring a limit = record { slots = repeat a limit; next = 0; count = 0 }

  -- ring[i] = a
  abbrev pub set_at : ℕ → A → List A → List A
  set_at i a [] = []
  set_at zero a (x ∷ xs) = a ∷ xs
  set_at (suc i) a (x ∷ xs) = x ∷ set_at i a xs

  -- ring[i], where it is in range
  abbrev pub slot_at : A → ℕ → List A → A
  slot_at a i [] = a
  slot_at a zero (x ∷ xs) = x
  slot_at a (suc i) (x ∷ xs) = slot_at a i xs

  unfoldable pub push : ℕ → A → Ring A → Ring A
  push limit a r = record {
    slots = set_at r.next a r.slots;
    next = (r.next + 1) % limit;
    count = if ltb r.count limit then r.count + 1 else r.count;
  }

  -- The loop over i from a first index, for a number of rounds.
  abbrev pub read_from : A → ℕ → ℕ → List A → ℕ → ℕ → List A
  read_from a limit start slots i zero = []
  read_from a limit start slots i (suc n) =
      slot_at a (position limit start i) slots ∷ read_from a limit start slots (suc i) n

  unfoldable pub read_back : A → ℕ → Ring A → List A
  read_back a limit r = read_from a limit (start_of limit r.next) r.slots 0 r.count

  slot_at-set_at :
      (a x : A) (i j : ℕ) (xs : List A)
      → i < length xs
      → slot_at a j (set_at i x xs) ≡ (if i == j then x else slot_at a j xs)
  slot_at-set_at a x i j [] h = absurd (omega arith)
  slot_at-set_at a x zero zero (y ∷ ys) h = refl
  slot_at-set_at a x zero (suc j) (y ∷ ys) h = ground arith
  slot_at-set_at a x (suc i) zero (y ∷ ys) h = ground arith
  slot_at-set_at a x (suc i) (suc j) (y ∷ ys) h = ground (arith, slot_at-set_at a x i j ys)

  length-set_at : (i : ℕ) (x : A) (xs : List A) → length (set_at i x xs) ≡ length xs
  length-set_at i x [] = refl
  length-set_at zero x (y ∷ ys) = refl
  length-set_at (suc i) x (y ∷ ys) = ap suc (length-set_at i x ys)

  length-repeat : (a : A) (n : ℕ) → length (repeat a n) ≡ n
  length-repeat a zero = refl
  length-repeat a (suc n) = ap suc (length-repeat a n)

  -- The ring holds the newest of what was put in, at the places that are read back.
  pub record Holds (a : A) (limit : ℕ) (pushed : List A) (r : Ring A) : Type 0 where
    pub full : length r.slots ≡ limit
    pub inside : r.next < limit
    pub counted : r.count ≡ min limit (length pushed)
    pub placed :
        (i : ℕ)
        → i < r.count
        → slot_at a (position limit (start_of limit r.next) i) r.slots ≡ slot_at a i pushed

  pub Holds-empty : (a : A) (limit : ℕ) → 0 < limit → Holds a limit [] (empty_ring a limit)
  Holds-empty a limit h = record {
    full = length-repeat a limit;
    inside = h;
    counted = omega arith;
    placed = λ i p. absurd (omega arith);
  }

  placed-push :
      (a x : A) (limit : ℕ) (pushed : List A) (r : Ring A)
      → Holds a limit pushed r
      → (i : ℕ) → i < (push limit x r).count
      → slot_at a (position limit (start_of limit (push limit x r).next) i) (push limit x r).slots
        ≡ slot_at a i (x ∷ pushed)
  unfolding push
  placed-push a x limit pushed r h zero p =
      rw (start_of-next r.next limit h.inside)
        (let w = slot_at-set_at a x r.next r.next r.slots (rw h.full h.inside) in ground (arith, w))
  placed-push a x limit pushed r h (suc i) p =
      let (old, room) = bounds r.count limit (length pushed) i h.counted p in
      rw (start_of-next r.next limit h.inside) (
        slot_at-set_at a x r.next (position limit r.next (suc i)) r.slots (rw h.full h.inside)
        ∙ ap (λ (b : Bool). if b then x else slot_at a (position limit r.next (suc i)) r.slots)
            (position-other r.next limit i h.inside room)
        ∙ ap (λ (j : ℕ). slot_at a j r.slots) (position-next r.next limit i h.inside room)
        ∙ h.placed i old)
    where
      bounds :
          (count limit n i : ℕ)
          → count ≡ min limit n
          → suc i < (if ltb count limit then count + 1 else count)
          → (i < count) × (suc i < limit)
      bounds count limit n i e p = ground arith

  pub Holds-push :
      (a x : A) (limit : ℕ) (pushed : List A) (r : Ring A)
      → Holds a limit pushed r
      → Holds a limit (x ∷ pushed) (push limit x r)
  unfolding push
  Holds-push a x limit pushed r h = record {
    full = length-set_at r.next x r.slots ∙ h.full;
    inside = rw (next-mod r.next limit h.inside) (let p = h.inside in ground arith);
    counted = ground (arith, h.counted);
    placed = placed-push a x limit pushed r h;
  }

  -- What follows a position.
  take_from : ℕ → ℕ → List A → List A
  take_from i n xs = take n (drop i xs)

  take_from_step :
      (a : A) (i n : ℕ) (xs : List A)
      → i < length xs
      → take_from i (suc n) xs ≡ slot_at a i xs ∷ take_from (suc i) n xs
  unfolding take_from
  take_from_step a i n [] h = absurd (omega arith)
  take_from_step a zero n (x ∷ xs) h = refl
  take_from_step a (suc i) n (x ∷ xs) h = take_from_step a i n xs (omega arith)

  read_from-take :
      (a : A) (limit start : ℕ) (slots pushed : List A) (i n : ℕ)
      → ((j : ℕ) → j < i + n → slot_at a (position limit start j) slots ≡ slot_at a j pushed)
      → i + n ≤ length pushed
      → read_from a limit start slots i n ≡ take_from i n pushed
  unfolding take_from
  read_from-take a limit start slots pushed i zero h l = refl
  read_from-take a limit start slots pushed i (suc n) h l =
      ap (λ (y : A). y ∷ read_from a limit start slots (suc i) n) (h i (omega arith))
      ∙ ap (λ (ys : List A). slot_at a i pushed ∷ ys)
          (read_from-take a limit start slots pushed (suc i) n (λ j p. h j (omega arith))
            (omega arith))
      ∙ sym (take_from_step a i n pushed (omega arith))

  take-min : (n : ℕ) (xs : List A) → take (min n (length xs)) xs ≡ take n xs
  take-min zero xs = let e : min 0 (length xs) ≡ 0 = omega arith in rw e refl
  take-min (suc n) [] = let e : min (suc n) 0 ≡ 0 = omega arith in rw e refl
  take-min (suc n) (x ∷ xs) =
      let e : min (suc n) (suc (length xs)) ≡ suc (min n (length xs)) = omega arith in
      rw e (ap (λ (ys : List A). x ∷ ys) (take-min n xs))

  -- Reading back a ring gives the newest elements, at most as many as the ring has places.
  pub read_back_lem :
      (a : A) (limit : ℕ) (pushed : List A) (r : Ring A)
      → Holds a limit pushed r
      → read_back a limit r ≡ take limit pushed
  unfolding read_back take_from
  read_back_lem a limit pushed r h =
      read_from-take a limit (start_of limit r.next) r.slots pushed 0 r.count
        (λ j p. h.placed j (omega arith)) (omega (arith, h.counted))
      ∙ ap (λ (n : ℕ). take n pushed) h.counted
      ∙ take-min limit pushed
