-- ===== src/Programs/MyInvokeLeds/Exchange.antt =====
-- The numbers that myInvoke_leds.c writes to moduleCharDriver and reads again.
use mathlib.Core.Path.{subst}
use driver_module_test.Prelude.{
  List, ℕ, zero, suc, ◌+◌, ◌≤◌, ◌<◌, pos, ◌≡◌, ◌≢◌, ◌⊎◌, inl, inr, refl, sym, ap, ◌∙◌, arith,
  fun_ext,
}
use driver_module_test.Prelude.Blit.{blit}
use driver_module_test.DeviceFile.{Syscalls, Dispatches}
use driver_module_test.Kernel.{Event, St, ok, pure, and_then, ◌>>=◌, ◌>>◌}
use driver_module_test.Kernel.After.{After, After-bind, After-mono}
use driver_module_test.Kernel.Loops.{for_range}
use driver_module_test.Chrdev.{Globals}
use driver_module_test.Chrdev.CharDriver.Operations.{hello_ops}
use driver_module_test.Chrdev.CharDriver.Transfer.{
  IsLoaded, hello_read, hello_write, read-write_lem,
}
use driver_module_test.Programs.MyInvokeLeds.{
  buff_size, fill_byte, fill_buffers, exchange, main_on, main,
}

module _ (write_buff read_buff : ℕ) where
  -- The buffers do not overlap.
  abbrev pub AreApart : Type 0
  AreApart = (write_buff + buff_size ≤ read_buff) ⊎ (read_buff + buff_size ≤ write_buff)

  -- The first `n` bytes are filled in.
  pub record Filled (g : Globals) (c : List Event) (m : ℕ → ℕ) (n : ℕ) (s : St Globals)
      : Type 0 where
    pub same_globals : s.globals ≡ g
    pub same_history : s.history ≡ c
    pub same_memory : s.memory ≡ m
    pub numbers : (i : ℕ) → i < n → s.user (write_buff + i) ≡ i
    pub zeros : (i : ℕ) → i < n → s.user (read_buff + i) ≡ 0

  module _ (g : Globals) (c : List Event) (m : ℕ → ℕ) (apart : AreApart) where
    for_range-Filled :
        (n i stop : ℕ) (s : St Globals)
        → Filled g c m i s
        → i + n ≡ stop
        → stop ≤ buff_size
        → After
            (λ _ t. Filled g c m stop t)
            (λ t. ⊥)
            (for_range n i (fill_byte write_buff read_buff) s)
    for_range-Filled zero i stop s h e le = subst (λ x. Filled g c m x s) (omega (arith, e)) h
    for_range-Filled (suc n) i stop s h e le =
        for_range-Filled n (suc i) stop _
          (record {
            same_globals = h.same_globals;
            same_history = h.same_history;
            same_memory = h.same_memory;
            numbers = λ j lt. ground (arith, lt, le, e, apart, h.numbers j);
            zeros = λ j lt. ground (arith, lt, le, e, apart, h.zeros j);
          })
          (omega (arith, e)) le

    fill_buffers-Filled :
        (s : St Globals)
        → s.globals ≡ g
        → s.history ≡ c
        → s.memory ≡ m
        → After (λ _ t. Filled g c m buff_size t) (λ t. ⊥) (fill_buffers write_buff read_buff s)
    unfolding fill_buffers
    fill_buffers-Filled s eg ec em =
        for_range-Filled buff_size 0 buff_size s
          (record {
            same_globals = eg;
            same_history = ec;
            same_memory = em;
            numbers = λ i lt. omega (arith, lt);
            zeros = λ i lt. omega (arith, lt);
          })
          refl (omega arith)

  -- The driver is as before, but for the first bytes of its first buffer.
  pub record Ready (g : Globals) (c : List Event) (m : ℕ → ℕ) (s : St Globals) : Type 0 where
    pub same_globals : s.globals ≡ g
    pub same_history : s.history ≡ c
    pub numbers : (i : ℕ) → i < buff_size → s.user (write_buff + i) ≡ i
    pub others : (a : ℕ) → (a < g.data_of 0) ⊎ (g.data_of 0 + buff_size ≤ a) → s.memory a ≡ m a

  -- The numbers went to the driver and came back.
  pub record Exchanged (g : Globals) (c : List Event) (m : ℕ → ℕ) (s : St Globals) : Type 0 where
    pub ready : Ready g c m s
    pub stored : (i : ℕ) → i < buff_size → s.memory (g.data_of 0 + i) ≡ i
    pub read_back : (i : ℕ) → i < buff_size → s.user (read_buff + i) ≡ i

  module _ (g : Globals) (c : List Event) (m : ℕ → ℕ) (apart : AreApart) (sys : Syscalls Globals)
      (laws : Dispatches hello_ops sys) (loaded : IsLoaded g) (from : write_buff ≢ 0)
      (to : read_buff ≢ 0) where
    exchange-blit :
        (fd cmd : ℕ) (s : St Globals)
        → s.globals ≡ g
        → exchange write_buff read_buff sys (pos fd) cmd s
          ≡ ok (pos 0) (record s {
            memory = blit s.memory s.user (g.data_of 0) write_buff buff_size;
            user = blit s.user s.user read_buff write_buff buff_size;
          })
    unfolding exchange
    exchange-blit fd cmd s e =
        ap
          (λ r. and_then r (λ _. do
            sys.write (pos fd) write_buff buff_size
            sys.read (pos fd) read_buff buff_size))
          (laws.controls fd cmd 1 s)
        ∙ ap (λ r. and_then r (λ _. sys.read (pos fd) read_buff buff_size))
            (laws.writes hello_write refl fd write_buff buff_size s)
        ∙ ap (λ f. and_then (hello_write write_buff buff_size s) (λ _. f))
            (fun_ext (laws.reads hello_read refl fd read_buff buff_size))
        ∙ read-write_lem write_buff read_buff buff_size s from to (subst IsLoaded (sym e) loaded)
        ∙ ap
            (λ (x : Globals). ok (pos 0) (record s {
              memory = blit s.memory s.user (x.data_of 0) write_buff buff_size;
              user = blit s.user s.user read_buff write_buff buff_size;
            }))
            e

    exchange-Exchanged :
        (fd cmd : ℕ) (s : St Globals)
        → Ready g c m s
        → After
            (λ _ t. Exchanged g c m t)
            (λ t. ⊥)
            (exchange write_buff read_buff sys (pos fd) cmd s)
    exchange-Exchanged fd cmd s h =
        subst (After _ _) (sym (exchange-blit fd cmd s h.same_globals)) (record {
          ready = record {
            same_globals = h.same_globals;
            same_history = h.same_history;
            numbers = λ i lt. ground (arith, lt, apart, h.numbers i);
            others = λ a out. ground (arith, h.others a out, out);
          };
          stored = λ i lt. ground (arith, lt, h.numbers i);
          read_back = λ i lt. ground (arith, lt, h.numbers i);
        })

    main_on-Exchanged :
        (fd : ℕ) (s : St Globals)
        → Ready g c m s
        → After (λ _ t. Exchanged g c m t) (λ t. ⊥) (main_on write_buff read_buff sys (pos fd) s)
    unfolding main_on
    main_on-Exchanged fd s h =
        After-bind _ _ _ (exchange write_buff read_buff sys (pos fd) 1 s) _
          (exchange-Exchanged fd 1 s h)
          (λ _ t ht.
            After-bind _ _ _ (exchange write_buff read_buff sys (pos fd) 0 t) _
              (exchange-Exchanged fd 0 t ht.ready)
              (λ _ u hu.
                After-bind _ _ _ (exchange write_buff read_buff sys (pos fd) 1 u) _
                  (exchange-Exchanged fd 1 u hu.ready)
                  (λ _ v hv.
                    subst (After _ _) (sym (ap (λ r. and_then r (λ _. pure tt)) (laws.closed fd v)))
                      hv)))

    opened-Exchanged :
        (s : St Globals)
        → Filled g c m buff_size s
        → After
            (λ _ t. Filled g c m buff_size t ⊎ Exchanged g c m t)
            (λ t. ⊥)
            ((do fd ← sys.open_file; main_on write_buff read_buff sys fd) s)
    unfolding main_on
    opened-Exchanged s h = elim (laws.opened s) [
      | inl (e, refused) ↦
          subst (After _ _) (sym (ap (λ r. and_then r (main_on write_buff read_buff sys)) refused))
            (inl h)
      | inr (fd, opened) ↦
          subst (After _ _) (sym (ap (λ r. and_then r (main_on write_buff read_buff sys)) opened)) (
            After-mono _ _ _ (main_on write_buff read_buff sys (pos fd) s)
              (main_on-Exchanged fd s (record {
                same_globals = h.same_globals;
                same_history = h.same_history;
                numbers = h.numbers;
                others = λ a _. ap (λ f. f a) h.same_memory;
              }))
              (λ _ t. inr))
    ]

  -- Let the calls of myInvoke_leds go to the handlers of moduleCharDriver, which is loaded, and
  -- let its two buffers be apart and at no NULL. Then its main ends without a NULL access. Either
  -- nothing of the driver changed and its buffers are as first filled; or the driver's variables
  -- are as before, its first buffer starts with the numbers 0 to 127, memory outside these bytes
  -- is as before, and both buffers of the program hold the numbers.
  pub invoke-Exchanged :
      (sys : Syscalls Globals) (laws : Dispatches hello_ops sys) (s : St Globals)
      → AreApart
      → write_buff ≢ 0
      → read_buff ≢ 0
      → IsLoaded s.globals
      → After
          (λ _ t.
            Filled s.globals s.history s.memory buff_size t
            ⊎ Exchanged s.globals s.history s.memory t)
          (λ t. ⊥)
          (main write_buff read_buff sys s)
  unfolding main
  invoke-Exchanged sys laws s apart from to loaded =
      After-bind _
        (λ _ t.
          Filled s.globals s.history s.memory buff_size t
          ⊎ Exchanged s.globals s.history s.memory t)
        (λ t. ⊥) (fill_buffers write_buff read_buff s)
        (λ _. do fd ← sys.open_file; main_on write_buff read_buff sys fd)
        (fill_buffers-Filled s.globals s.history s.memory apart s refl refl refl)
        (λ _ t. opened-Exchanged s.globals s.history s.memory apart sys laws loaded from to t)
