-- ===== src/Client/Subscription/Feed.antt =====
-- What a `NotificationSubscription` of stdiobus/client.py promises its consumer, with no sentinel and no
-- queue: a feed. The object gives what the feed gives.
use stdiobus_python.Base.{
  ℕ, ◌≡◌, refl, ap, Bool, true, false, ◌&&◌, List, [], ◌∷◌, ◌++◌, map, length, ltb, leb,
  if◌then◌else◌, arith, Bool-cases, inl, inr,
}
use stdiobus_python.Json.{Fields}
use stdiobus_python.Client.Subscription.{
  NotificationSubscription, OverflowPolicy, drop, close, Entry, item, sentinel, new, close_queue,
  deliver_queue, Next, yields, stops, blocks, anext,
}

-- The notifications that wait, at most `bound` of them unless that is 0, and whether more can come.
pub record Feed : Type 0 where
  pub waiting : List Fields
  pub bound : ℕ
  pub policy : OverflowPolicy
  pub ended : Bool

abbrev pub empty : ℕ → OverflowPolicy → Feed
empty n o = record { waiting = []; bound = n; policy = o; ended = false }

abbrev pub has_no_room : Feed → Bool
has_no_room f = ltb 0 f.bound && leb f.bound (length f.waiting)

-- What the overflow does to a feed without room.
abbrev pub overflows : OverflowPolicy → Feed → Feed × Bool
overflows drop f = (f, false)
overflows close f = (record f { ended = true }, true)

abbrev pub offer : Feed → Fields → Feed × Bool
offer f n =
    if f.ended
    then (f, false)
    else if has_no_room f
    then overflows f.policy f
    else (record f { waiting = f.waiting ++ n ∷ [] }, false)

abbrev pub finish : Feed → Feed
finish f = record f { ended = true }

abbrev pub take : Feed → Feed × Next
take f = elim f.waiting [
  | n ∷ rest ↦ (record f { waiting = rest }, yields n)
  | [] ↦ (f, if f.ended then stops else blocks)
]

-- A delivery, a call of `close`, or a call of `__anext__`; and what each shows: whether the delivery
-- closed the object, nothing, or what the call comes to.
pub data Act : Type 0 where
  delivers : Fields → Act
  closes asks : Act

pub data Shown : Type 0 where
  delivered : Bool → Shown
  was_closed : Shown
  answered : Next → Shown

abbrev pub feed_step : Feed → Act → Feed × Shown
feed_step f (delivers n) = let (g, c) = offer f n in (g, delivered c)
feed_step f closes = (finish f, was_closed)
feed_step f asks = let (g, x) = take f in (g, answered x)

-- The same of the object; a second `close` does nothing.
abbrev pub object_step : NotificationSubscription → Act → NotificationSubscription × Shown
object_step s (delivers n) = let (t, c) = deliver_queue s n in (t, delivered c)
object_step s closes = (if s.closed then s else close_queue s, was_closed)
object_step s asks = let (t, x) = anext s in (t, answered x)

abbrev pub feed_shows : Feed → List Act → List Shown
feed_shows f [] = []
feed_shows f (a ∷ l) = (feed_step f a).1 ∷ feed_shows (feed_step f a).0 l

abbrev pub object_shows : NotificationSubscription → List Act → List Shown
object_shows s [] = []
object_shows s (a ∷ l) = (object_step s a).1 ∷ object_shows (object_step s a).0 l

-- A feed's object: `m` tells whether there is a sentinel.
abbrev entries : List Fields → Bool → List Entry
entries ns false = map item ns
entries ns true = map item ns ++ sentinel ∷ []

module _ (b : ℕ) (p : OverflowPolicy) where
  abbrev feed : List Fields → Bool → Feed
  feed ns e = record { waiting = ns; bound = b; policy = p; ended = e }

  abbrev object : List Fields → (e m : Bool) → NotificationSubscription
  object ns e m = record { queue = entries ns m; maxsize = b; overflow = p; closed = e }

-- `t` stands for the feed `g`: a sentinel is there only at its end.
Stands : Feed → NotificationSubscription → Type 0
Stands g t =
    (m : Bool) × (t ≡ object g.bound g.policy g.waiting g.ended m) × (m ≡ true → g.ended ≡ true)

length-map-item : (ns : List Fields) → length (map item ns) ≡ length ns
length-map-item [] = refl
length-map-item (n ∷ ns) = omega (arith, length-map-item ns)

map-item-append :
    (ns : List Fields) (n : Fields) → map item ns ++ item n ∷ [] ≡ map item (ns ++ n ∷ [])
map-item-append [] n = refl
map-item-append (x ∷ ns) n = ap (◌∷◌ (item x)) (map-item-append ns n)

Agree : Feed × Shown → NotificationSubscription × Shown → Type 0
unfolding Stands
Agree x y = Stands x.0 y.0 × (x.1 ≡ y.1)

module _ (b : ℕ) (ns : List Fields) where
  put_end :
      (p : OverflowPolicy) (n : Fields)
      → record (object b p ns false false) { queue = map item ns ++ item n ∷ [] }
        ≡ object b p (ns ++ n ∷ []) false false
  put_end p n = ap (λ q. record (object b p ns false false) { queue = q }) (map-item-append ns n)

  close_full :
      (p : OverflowPolicy)
      → (ltb 0 b && leb b (length ns)) ≡ true
      → close_queue (object b p ns false false) ≡ object b p ns true false
  unfolding close_queue
  close_full p full = ground (arith, length-map-item ns)

  close_room :
      (p : OverflowPolicy)
      → (ltb 0 b && leb b (length ns)) ≡ false
      → close_queue (object b p ns false false) ≡ object b p ns true true
  unfolding close_queue
  close_room p room = ground (arith, length-map-item ns)

  delivers-Agree :
      (p : OverflowPolicy) (e m : Bool) (n : Fields)
      → (m ≡ true → e ≡ true)
      → Agree
          (feed_step (feed b p ns e) (delivers n))
          (object_step (object b p ns e m) (delivers n))
  unfolding Agree deliver_queue
  delivers-Agree p true m n i = ((m, refl, i), refl)
  delivers-Agree p false true n i = cc (i refl)
  delivers-Agree drop false false n i = elim (Bool-cases (ltb 0 b && leb b (length ns))) [
    | inr room ↦ rw (length-map-item ns) (rw room ((false, put_end drop n, λ h. cc h), refl))
    | inl full ↦ rw (length-map-item ns) (rw full ((false, refl, i), refl))
  ]
  delivers-Agree close false false n i = elim (Bool-cases (ltb 0 b && leb b (length ns))) [
    | inr room ↦ rw (length-map-item ns) (rw room ((false, put_end close n, λ h. cc h), refl))
    | inl full ↦ rw (length-map-item ns) (rw full ((false, close_full close full, λ h. refl), refl))
  ]

  closes-Agree :
      (p : OverflowPolicy) (e m : Bool)
      → (m ≡ true → e ≡ true)
      → Agree (feed_step (feed b p ns e) closes) (object_step (object b p ns e m) closes)
  unfolding Agree
  closes-Agree p true m i = ((m, refl, i), refl)
  closes-Agree p false true i = cc (i refl)
  closes-Agree p false false i = elim (Bool-cases (ltb 0 b && leb b (length ns))) [
    | inr room ↦ ((true, close_room p room, λ h. refl), refl)
    | inl full ↦ ((false, close_full p full, λ h. refl), refl)
  ]

asks-Agree :
    (b : ℕ) (ns : List Fields) (p : OverflowPolicy) (e m : Bool)
    → (m ≡ true → e ≡ true)
    → Agree (feed_step (feed b p ns e) asks) (object_step (object b p ns e m) asks)
unfolding Agree anext
asks-Agree b [] p true false i = ((false, refl, λ h. refl), refl)
asks-Agree b [] p true true i = ((false, refl, λ h. refl), refl)
asks-Agree b [] p false true i = cc (i refl)
asks-Agree b [] p false false i = ((false, refl, i), refl)
asks-Agree b (n ∷ ns) p e false i = ((false, refl, i), refl)
asks-Agree b (n ∷ ns) p e true i = ((true, refl, i), refl)

step_agrees :
    (f : Feed) (s : NotificationSubscription) (a : Act)
    → Stands f s
    → Agree (feed_step f a) (object_step s a)
unfolding Stands
step_agrees f s (delivers n) (m, e, i) =
    rw e (delivers-Agree f.bound f.waiting f.policy f.ended m n i)
step_agrees f s closes (m, e, i) = rw e (closes-Agree f.bound f.waiting f.policy f.ended m i)
step_agrees f s asks (m, e, i) = rw e (asks-Agree f.bound f.waiting f.policy f.ended m i)

shows_agree :
    (l : List Act) (f : Feed) (s : NotificationSubscription)
    → Stands f s
    → object_shows s l ≡ feed_shows f l
unfolding Agree
shows_agree [] f s h = refl
shows_agree (a ∷ l) f s h =
    let (next, same) = step_agrees f s a h in
    rw same (ap (◌∷◌ (object_step s a).1) (shows_agree l _ _ next))

-- However deliveries, closes and calls of `__anext__` follow one another, a new subscription of any bound
-- and either policy shows what the feed shows: the notifications that there was room for, in order, each
-- once, and the end when it is closed and all are taken.
pub subscription_is_feed :
    (n : ℕ) (o : OverflowPolicy) (l : List Act)
    → object_shows (new n o) l ≡ feed_shows (empty n o) l
unfolding new Stands
subscription_is_feed n o l = shows_agree l (empty n o) (new n o) (false, refl, λ h. cc h)
