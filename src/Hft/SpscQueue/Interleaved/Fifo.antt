-- ===== src/Hft/SpscQueue/Interleaved/Fifo.antt =====
-- The invariant of the two interleaved threads, and what follows for the items and the slots.
use latentspeed.Prelude.{
  ℕ, suc, ◌+◌, ◌%◌, ◌<◌, ◌≡◌, refl, sym, ap, ◌∙◌, ◌≢◌, List, [], ◌∷◌, ◌++◌, some, length, get_elem?,
  set, arith, append_assoc, get_elem?-set_self, length-append, subst,
}
use latentspeed.Hft.SpscQueue.Window.{
  Contents, Holds, full_iff, empty_iff, Contents-write, Contents-snoc, Contents-pop,
}
use latentspeed.Hft.SpscQueue.Interleaved.{
  Shared, Producer, Consumer, ProducerStep, ConsumerStep, Reach, here, produce, consume,
}

-- What the producer may rely on while the ring holds `xs`.
abbrev pub ProducerOk : {T : Type 0} → ℕ → Shared T → List T → Producer T → Type 0
ProducerOk cap s xs Producer.idle = Unit {0}
ProducerOk cap s xs (Producer.loaded x t) = t ≡ s.tail
ProducerOk cap s xs (Producer.checked x t) = (t ≡ s.tail) × (suc (length xs) < cap)
ProducerOk cap s xs (Producer.written x t) =
    (t ≡ s.tail) × (suc (length xs) < cap) × (get_elem? s.buffer t ≡ some x)

abbrev pub ConsumerOk : {T : Type 0} → Shared T → List T → Consumer T → Type 0
ConsumerOk s xs Consumer.idle = Unit {0}
ConsumerOk s xs (Consumer.loaded h) = h ≡ s.head
ConsumerOk s xs (Consumer.checked h) = (h ≡ s.head) × (0 < length xs)
ConsumerOk {T} s xs (Consumer.copied x h) = (h ≡ s.head) × (ys : List T) × (xs ≡ x ∷ ys)

-- `xs` is what was published and is not yet taken.
pub record Inv {T : Type 0} (cap : ℕ) (s : Shared T) (p : Producer T) (c : Consumer T)
    : Type 0 where
  pub xs : List T
  pub contents : Contents cap s.buffer s.head s.tail xs
  pub order : s.sent ≡ s.got ++ xs
  pub producer : ProducerOk cap s xs p
  pub consumer : ConsumerOk s xs c

-- Neither thread loses what it knows when the other publishes or releases an item.
ConsumerOk-snoc :
    {T : Type 0} (s s' : Shared T) (xs : List T) (x : T) (c : Consumer T)
    → s'.head ≡ s.head
    → ConsumerOk s xs c
    → ConsumerOk s' (xs ++ x ∷ []) c
ConsumerOk-snoc s s' xs x Consumer.idle e k = tt
ConsumerOk-snoc s s' xs x (Consumer.loaded h) e k = k ∙ sym e
ConsumerOk-snoc s s' xs x (Consumer.checked h) e k =
    (k.0 ∙ sym e, omega (arith, length-append xs (x ∷ []), k.1))
ConsumerOk-snoc s s' xs x (Consumer.copied y h) e k =
    (k.0 ∙ sym e, k.1 ++ x ∷ [], ap (λ l. l ++ x ∷ []) k.2)

ConsumerOk-write :
    {T : Type 0} (s s' : Shared T) (xs : List T) (c : Consumer T)
    → s'.head ≡ s.head
    → ConsumerOk s xs c
    → ConsumerOk s' xs c
ConsumerOk-write s s' xs Consumer.idle e k = tt
ConsumerOk-write s s' xs (Consumer.loaded h) e k = k ∙ sym e
ConsumerOk-write s s' xs (Consumer.checked h) e k = (k.0 ∙ sym e, k.1)
ConsumerOk-write s s' xs (Consumer.copied y h) e k = (k.0 ∙ sym e, k.1, k.2)

ProducerOk-pop :
    {T : Type 0} (cap : ℕ) (s s' : Shared T) (xs ys : List T) (x : T) (p : Producer T)
    → s'.tail ≡ s.tail
    → s'.buffer ≡ s.buffer
    → xs ≡ x ∷ ys
    → ProducerOk cap s xs p
    → ProducerOk cap s' ys p
ProducerOk-pop cap s s' xs ys x Producer.idle e b l k = tt
ProducerOk-pop cap s s' xs ys x (Producer.loaded y t) e b l k = k ∙ sym e
ProducerOk-pop cap s s' xs ys x (Producer.checked y t) e b l k =
    (k.0 ∙ sym e, omega (arith, ap length l, k.1))
ProducerOk-pop cap s s' xs ys x (Producer.written y t) e b l k =
    (k.0 ∙ sym e, omega (arith, ap length l, k.1), ap (λ buf. get_elem? buf t) b ∙ k.2)

module _ {T : Type 0} (cap : ℕ) where
  producer-Inv :
      {s s' : Shared T} {p p' : Producer T} {c : Consumer T}
      → ProducerStep cap s p s' p'
      → Inv cap s p c
      → Inv cap s' p' c
  producer-Inv (ProducerStep.load_tail x) v = record {
    xs = v.xs;
    contents = v.contents;
    order = v.order;
    producer = refl;
    consumer = v.consumer;
  }
  producer-Inv (ProducerStep.refuse e) v = record {
    xs = v.xs;
    contents = v.contents;
    order = v.order;
    producer = tt;
    consumer = v.consumer;
  }
  producer-Inv {s = s} (ProducerStep.check e) v =
      let full = full_iff cap s.buffer s.head s.tail v.xs v.contents in
      let seen : (s.tail + 1) % cap ≢ s.head = subst (λ k. (k + 1) % cap ≢ s.head) v.producer e in
      record {
        xs = v.xs;
        contents = v.contents;
        order = v.order;
        producer = (v.producer, room v.contents.free (λ k. seen (full.1 k)));
        consumer = v.consumer;
      }
    where
      room : length v.xs < cap → suc (length v.xs) ≢ cap → suc (length v.xs) < cap
      room f n = omega arith
  producer-Inv {s = s} {c = c} (ProducerStep.write {x = x} {t = t}) v =
      let b = s.buffer in
      let at : s.tail ≡ t = sym v.producer.0 in
      let bound : t < length b =
        omega (arith, v.contents.slots, v.contents.tail_in, v.producer.0) in
      record {
        xs = v.xs;
        contents =
            subst (λ k. Contents cap (set b k x) s.head s.tail v.xs) at
              (Contents-write cap b s.head s.tail v.xs x v.producer.1 v.contents);
        order = v.order;
        producer = (v.producer.0, v.producer.1, get_elem?-set_self b t x bound);
        consumer = ConsumerOk-write s (record s { buffer = set b t x }) v.xs c refl v.consumer;
      }
  producer-Inv {s = s} {c = c} (ProducerStep.store_tail {x = x} {t = t}) v =
      let b = s.buffer in
      let at : s.tail ≡ t = sym v.producer.0 in
      record {
        xs = v.xs ++ x ∷ [];
        contents =
            Contents-snoc cap b s.head t v.xs x v.producer.1 v.producer.2
              (subst (λ k. Contents cap b s.head k v.xs) at v.contents);
        order = ap (λ l. l ++ x ∷ []) v.order ∙ append_assoc s.got v.xs (x ∷ []);
        producer = tt;
        consumer =
            ConsumerOk-snoc s (record s { tail = (t + 1) % cap; sent = s.sent ++ x ∷ [] }) v.xs x c
              refl v.consumer;
      }

  consumer-Inv :
      {s s' : Shared T} {p : Producer T} {c c' : Consumer T}
      → ConsumerStep cap s c s' c'
      → Inv cap s p c
      → Inv cap s' p c'
  consumer-Inv ConsumerStep.load_head v = record {
    xs = v.xs;
    contents = v.contents;
    order = v.order;
    producer = v.producer;
    consumer = refl;
  }
  consumer-Inv (ConsumerStep.refuse e) v = record {
    xs = v.xs;
    contents = v.contents;
    order = v.order;
    producer = v.producer;
    consumer = tt;
  }
  consumer-Inv {s = s} (ConsumerStep.check e) v =
      let none_left = empty_iff cap s.buffer s.head s.tail v.xs v.contents in
      let seen : s.head ≢ s.tail = subst (λ k. k ≢ s.tail) v.consumer e in
      record {
        xs = v.xs;
        contents = v.contents;
        order = v.order;
        producer = v.producer;
        consumer = (v.consumer, positive (λ k. seen (none_left.1 k)));
      }
    where
      positive : length v.xs ≢ 0 → 0 < length v.xs
      positive n = omega arith
  consumer-Inv {s = s} (ConsumerStep.copy {h = h} x g) v = record {
    xs = v.xs;
    contents = v.contents;
    order = v.order;
    producer = v.producer;
    consumer = front v.xs v.contents.held v.consumer.1;
  }
    where
      front :
          (l : List T)
          → Holds s.buffer cap s.head l s.tail
          → 0 < length l
          → (h ≡ s.head) × (ys : List T) × (l ≡ x ∷ ys)
      front [] w n = absurd (omega arith)
      front (y ∷ ys) w n =
          let same = sym w.0 ∙ ap (get_elem? s.buffer) (sym v.consumer.0) ∙ g in
          (v.consumer.0, ys, cc same)
  consumer-Inv {s = s} {p = p} (ConsumerStep.store_head {x = x} {h = h}) v =
      let ys = v.consumer.1 in
      let l = v.consumer.2 in
      let whole : Contents cap s.buffer s.head s.tail (x ∷ ys) =
        subst (Contents cap s.buffer s.head s.tail) l v.contents in
      let rest = (Contents-pop cap s.buffer s.head s.tail x ys whole).1 in
      record {
        xs = ys;
        contents =
            subst (λ k. Contents cap s.buffer ((k + 1) % cap) s.tail ys) (sym v.consumer.0) rest;
        order = v.order ∙ ap (λ k. s.got ++ k) l ∙ sym (append_assoc s.got (x ∷ []) ys);
        producer =
            ProducerOk-pop cap s (record s { head = (h + 1) % cap; got = s.got ++ x ∷ [] }) v.xs ys
              x p refl refl l v.producer;
        consumer = tt;
      }

  reach-Inv :
      {s : Shared T} {p : Producer T} {c : Consumer T} {s' : Shared T} {p' : Producer T}
      {c' : Consumer T}
      → Reach cap s p c s' p' c'
      → Inv cap s p c
      → Inv cap s' p' c'
  reach-Inv here v = v
  reach-Inv (produce r st) v = producer-Inv st (reach-Inv r v)
  reach-Inv (consume r st) v = consumer-Inv st (reach-Inv r v)

-- The constructor of the queue, over any buffer.
abbrev pub fresh : {T : Type 0} → List T → Shared T
fresh buf = record { head = 0; tail = 0; buffer = buf; sent = []; got = [] }

fresh-Inv :
    {T : Type 0} (cap : ℕ) (buf : List T)
    → 0 < cap
    → length buf ≡ cap
    → Inv cap (fresh buf) Producer.idle Consumer.idle
fresh-Inv cap buf pos e = record {
  xs = [];
  contents = record { slots = e; head_in = pos; tail_in = pos; free = pos; held = refl };
  order = refl;
  producer = tt;
  consumer = tt;
}

-- However the two threads interleave, the items that the consumer has taken are the first of those
-- that the producer has published, in the same order, and fewer than `cap` of them are waiting.
pub reach_fifo :
    {T : Type 0} (cap : ℕ) (buf : List T) (s : Shared T) (p : Producer T) (c : Consumer T)
    → 0 < cap
    → length buf ≡ cap
    → Reach cap (fresh buf) Producer.idle Consumer.idle s p c
    → (xs : List T) × (s.sent ≡ s.got ++ xs) × (length xs < cap)
reach_fifo cap buf s p c pos e r =
    let v = reach-Inv cap r (fresh-Inv cap buf pos e) in (v.xs, v.order, v.contents.free)

apart :
    {T : Type 0} (cap h t : ℕ) (buf : List T) (xs : List T)
    → Contents cap buf h t xs
    → 0 < length xs
    → t ≢ h
apart cap h t buf xs c n =
    let none_left = empty_iff cap buf h t xs c in λ e. omega (arith, none_left.0 (sym e))

-- The slot that the producer is about to write is never the slot that the consumer is about to
-- copy, in any interleaving.
pub reach_no_race :
    {T : Type 0} (cap : ℕ) (buf : List T) (s : Shared T) (x : T) (t h : ℕ)
    → 0 < cap
    → length buf ≡ cap
    → Reach cap
        (fresh buf)
        Producer.idle
        Consumer.idle
        s
        (Producer.checked x t)
        (Consumer.checked h)
    → t ≢ h
reach_no_race cap buf s x t h pos e r =
    let v = reach-Inv cap r (fresh-Inv cap buf pos e) in
    λ same.
      apart cap s.head s.tail s.buffer v.xs v.contents v.consumer.1
        (sym v.producer.0 ∙ same ∙ v.consumer.0)
