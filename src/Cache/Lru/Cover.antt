-- ===== src/Cache/Lru/Cover.antt =====
-- A recency list covers a demand (how many entries point at each element) when it holds each element
-- at least as often as it is demanded, and no pointer twice.
use host_manager.Base.{
  ℕ, ◌+◌, ◌≤◌, ◌<◌, Bytes, beq, beq_iff, ◌≡◌, ◌==◌, inl, inr, if◌then◌else◌, arith, Bool-cases,
  Option-cases,
}
use host_manager.Cache.Lru.{Element, Lru, find, remove, move_to_front, push_front, len}
use host_manager.Cache.Lru.Counts.{
  same, count, uses, count-le-uses, count_apart, count-without, uses-without, find-pointer,
  length-without-le, length-without-lt,
}

abbrev pub Demand : Type 0
Demand = Element → ℕ

pub record IsSound (l : Lru) : Type 0 where
  pub distinct : (p : ℕ) → uses p l.elements ≤ 1
  pub unused : (p : ℕ) → l.fresh ≤ p → uses p l.elements ≡ 0
  pub not_nil : uses 0 l.elements ≡ 0
  pub positive : 0 < l.fresh

pub record Covers (b : ℕ) (d : Demand) (l : Lru) : Type 0 where
  pub sound : IsSound l
  pub fits : len l ≤ b
  pub held : (t : Element) → d t ≤ count t l.elements

pub Covers-weaken :
    {b : ℕ} (d d' : Demand) (l : Lru) → ((t : Element) → d' t ≤ d t) → Covers b d l → Covers b d' l
Covers-weaken d d' l h c = record {
  sound = c.sound;
  fits = c.fits;
  held = λ t. omega (arith, h t, c.held t);
}

IsSound-remove : (p : ℕ) (l : Lru) → IsSound l → IsSound (remove p l)
unfolding remove
IsSound-remove p l s = record {
  distinct = λ q. ground (arith, uses-without p q l.elements, s.distinct q);
  unused = λ q h. ground (arith, uses-without p q l.elements, s.unused q h);
  not_nil = ground (arith, uses-without p 0 l.elements, s.not_nil);
  positive = s.positive;
}

-- The pointer of a demanded element is demanded under one key, once.
pub sole :
    {b : ℕ} (d : Demand) (l : Lru) (p : ℕ) (k j : Bytes)
    → Covers b d l
    → 0 < d (p, k)
    → d (p, j) ≡ (if beq k j then 1 else 0)
sole d l p k j c h = elim (Bool-cases (beq k j)) [
  | inl e ↦
      ground (
        arith,
        (beq_iff k j).0 e,
        c.held (p, k),
        c.sound.distinct p,
        count-le-uses (p, k) l.elements,
      )
  | inr e ↦
      ground
        (arith, c.held (p, k), c.held (p, j), c.sound.distinct p, count_apart p k j l.elements e)
]

-- An element is removed once nothing demands it.
pub Covers-remove :
    {b : ℕ} (d d' : Demand) (p : ℕ) (l : Lru)
    → Covers b d l
    → ((t : Element) → d' t ≤ d t)
    → ((j : Bytes) → d' (p, j) ≡ 0)
    → Covers b d' (remove p l)
unfolding remove
Covers-remove d d' p l c h z = record {
  sound = unfold remove in IsSound-remove p l c.sound;
  fits = omega (arith, length-without-le p l.elements, c.fits);
  held = λ (q, j). elim (Bool-cases (q == p)) [
    | inl e ↦ ground (arith, z j, count-without p (q, j) l.elements)
    | inr e ↦ ground (arith, h (q, j), c.held (q, j), count-without p (q, j) l.elements)
  ];
}

uses-move :
    (p q : ℕ) (l : Lru) → IsSound l → uses q (move_to_front p l).elements ≡ uses q l.elements
unfolding move_to_front
uses-move p q l s = elim (Option-cases (find p l.elements)) [
  | inl e ↦ rw (e, move_to_front)
  | inr (e, f) ↦
      let (at, there) = find-pointer p l.elements e f in
      rw (f, move_to_front)
        (unfold uses in
          ground (
            arith,
            uses-without p q l.elements,
            s.distinct p,
            count-le-uses e l.elements,
            at,
            there,
          ))
]

count-move :
    (p : ℕ) (t : Element) (l : Lru)
    → IsSound l
    → count t (move_to_front p l).elements ≡ count t l.elements
unfolding move_to_front
count-move p (q, j) l s = elim (Option-cases (find p l.elements)) [
  | inl e ↦ rw (e, move_to_front)
  | inr ((r, k), f) ↦
      let (at, there) = find-pointer p l.elements (r, k) f in
      rw (f, move_to_front)
        (unfold count in
          ground (
            arith,
            count-without p (q, j) l.elements,
            s.distinct p,
            count-le-uses (r, k) l.elements,
            count_apart p k j l.elements,
            beq_iff k j,
            at,
            there,
          ))
]

fresh-move : (p : ℕ) (l : Lru) → (move_to_front p l).fresh ≡ l.fresh
unfolding move_to_front
fresh-move p l = ground arith

len-move-le : (p : ℕ) (l : Lru) → len (move_to_front p l) ≤ len l
unfolding move_to_front
len-move-le p l = elim (Option-cases (find p l.elements)) [
  | inl e ↦ rw (e, move_to_front) (omega arith)
  | inr (e, f) ↦
      let (at, there) = find-pointer p l.elements e f in
      rw (f, move_to_front)
        (ground (arith, at, there, count-le-uses e l.elements, length-without-lt p l.elements))
]

pub Covers-move :
    {b : ℕ} (d : Demand) (p : ℕ) (l : Lru) → Covers b d l → Covers b d (move_to_front p l)
Covers-move d p l c = record {
  sound = record {
    distinct = λ q. rw (uses-move p q l c.sound) (c.sound.distinct q);
    unused = λ q h. rw (uses-move p q l c.sound) (c.sound.unused q (rw fresh-move at h));
    not_nil = rw (uses-move p 0 l c.sound) c.sound.not_nil;
    positive = rw fresh-move c.sound.positive;
  };
  fits = omega (arith, len-move-le p l, c.fits);
  held = λ t. rw (count-move p t l c.sound) (c.held t);
}

-- A new element serves one more entry.
pub Covers-push :
    {b : ℕ} (d d' : Demand) (key : Bytes) (l : Lru)
    → len l < b
    → Covers b d l
    → ((t : Element) → d' t ≤ d t + (if same (l.fresh, key) t then 1 else 0))
    → Covers b d' (push_front key l).0
unfolding push_front
Covers-push d d' key l room c h = record {
  sound = record {
    distinct = λ q. unfold uses in ground (arith, c.sound.distinct q, c.sound.unused l.fresh);
    unused = λ q g. unfold uses in ground (arith, c.sound.unused q);
    not_nil = unfold uses in ground (arith, c.sound.not_nil, c.sound.positive);
    positive = omega arith;
  };
  fits = omega arith;
  held = λ t. unfold count in ground (arith, h t, c.held t);
}
