-- ===== src/Cpu/Syscall/Seek.antt =====
-- Seeking and reading through kernel/cpu/syscall.c.
use wyrm_os.Base.{
  ℕ, ◌+◌, ◌≡◌, given, inl, inr, ◌∙◌, ap, refl, true, some, List, get_elem?, if◌then◌else◌,
  Bool-cases,
}
use wyrm_os.Base.Word.{u64}
use wyrm_os.Libc.Number.{u32, lt_int}
use wyrm_os.Proc.Files.{FdEntry, Slot, entry, k_process_get_file, SetAt, get_elem?-set}
use wyrm_os.Cpu.Syscall.{
  Kernel, State, sys_seek, sys_read, set_offset, seek_to, moved_offset, with_slot,
}

module _ {Node S : Type 0} (k : Kernel Node S) where
  file_at :
      (fds : List (Slot Node)) (fd : ℕ) (e : FdEntry Node)
      → get_elem? fds fd ≡ some (entry e)
      → k_process_get_file fds fd ≡ entry e
  unfolding k_process_get_file
  file_at fds fd e q = rw (k_process_get_file, q) refl

  sys_seek-entry :
      (fd offset origin : ℕ) (e : FdEntry Node) (s : State Node S)
      → get_elem? s.fds fd ≡ some (entry e)
      → sys_seek k fd offset origin s
        ≡ some (
          u32 (seek_to k s.rest e offset origin),
          set_offset k s fd e (seek_to k s.rest e offset origin),
        )
  unfolding sys_seek
  sys_seek-entry fd offset origin e s q =
      ap
        (λ v. with_slot k s v (λ e'.
          let o : ℕ = seek_to k s.rest e' offset origin in some (u32 o, set_offset k s fd e' o)))
        (file_at s.fds fd e q)

  sys_read-entry :
      (fd size buffer : ℕ) (e : FdEntry Node) (s : State Node S)
      → get_elem? s.fds fd ≡ some (entry e)
      → k.validate_ptr s.rest buffer size ≡ true
      → sys_read k fd size buffer s
        ≡ moved_offset k s fd e (k.k_fs_read s.rest e.node e.offset size buffer)
  unfolding sys_read
  sys_read-entry fd size buffer e s q valid =
      rw (sys_read, valid)
        (ap
          (λ v.
            with_slot k s v
              (λ e'. moved_offset k s fd e' (k.k_fs_read s.rest e'.node e'.offset size buffer)))
          (file_at s.fds fd e q))

  -- The state behind moved_offset
  moved_lem :
      (fd : ℕ) (e : FdEntry Node) (s : State Node S) (n : ℕ) (rest : S)
      → get_elem? s.fds fd ≡ some (entry e)
      → (s' : State Node S) × (moved_offset k s fd e (n, rest) ≡ some (u32 n, s'))
        × (s'.rest ≡ rest)
        × SetAt s.fds s'.fds fd (
            entry
              (record e { offset = if lt_int 0 (u32 n) then u64 (e.offset + u32 n) else e.offset }))
  moved_lem fd e s n rest q = elim (Bool-cases (lt_int 0 (u32 n))) [
    | inl more ↦ (
      _,
      refl,
      rw more refl,
      rw more (
          get_elem?-set s.fds fd (entry e) (entry (record e { offset = u64 (e.offset + u32 n) }))
            q),
    )
    | inr none' ↦ (_, refl, rw none' refl, rw none' (q, λ j ne. refl))
  ]

  -- lseek(fd, offset, SEEK_SET) on an open descriptor, and then a read of a valid buffer: the read
  -- asks the file at that offset, a positive count moves the descriptor's offset behind the bytes
  -- read, and the other descriptors stay.
  pub sys_seek-sys_read :
      (fd offset size buffer : ℕ) (e : FdEntry Node) (s : State Node S)
      → get_elem? s.fds fd ≡ some (entry e)
      → k.validate_ptr s.rest buffer size ≡ true
      → (s' s'' : State Node S) × (sys_seek k fd offset 0 s ≡ some (u32 offset, s'))
        × (sys_read k fd size buffer s'
            ≡ some (u32 ((k.k_fs_read s.rest e.node offset size buffer).0), s''))
        × (s''.rest ≡ (k.k_fs_read s.rest e.node offset size buffer).1)
        × SetAt s.fds s''.fds fd (
            entry (record e {
              offset =
                  if lt_int 0 (u32 ((k.k_fs_read s.rest e.node offset size buffer).0))
                  then u64 (offset + u32 ((k.k_fs_read s.rest e.node offset size buffer).0))
                  else offset;
            }))
  unfolding seek_to
  sys_seek-sys_read fd offset size buffer e s q valid =
      given (get_elem?-set s.fds fd (entry e) (entry (record e { offset = offset })) q)
        λ (now, others).
          given
            (moved_lem fd (record e { offset = offset }) (set_offset k s fd e offset)
              ((k.k_fs_read s.rest e.node offset size buffer).0)
              ((k.k_fs_read s.rest e.node offset size buffer).1) now)
            λ (s'', run, same, (here, there)). (
              set_offset k s fd e offset,
              s'',
              sys_seek-entry fd offset 0 e s q,
              sys_read-entry fd size buffer (record e { offset = offset })
                    (set_offset k s fd e offset) now valid
                  ∙ run,
              same,
              (here, λ j ne. there j ne ∙ others j ne),
            )
