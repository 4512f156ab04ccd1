-- ===== src/Net/EventLoop/Construct.antt =====
-- The constructor of `EventLoop` of src/net/event_loop.cpp, over what the system calls answer.
use cpp_kv_store.Base.{
  ℕ, Bytes, Bool, not, Option, none, some, List, [], ◌∷◌, ◌++◌, codes, if◌then◌else◌, ◌≡◌, refl,
  sym, subst, inl, inr, Option-cases,
}
use cpp_kv_store.Net.FileDescriptor.{FileDescriptor, to_list, destroy, release, reset}
use cpp_kv_store.Net.Listener.{
  ListenerConfig, ListenerCalls, Exception, system_error, Result, built, thrown, Constructed,
  new_listener, after_socket, after_check, check,
}

-- What ::epoll_create1 and ::eventfd return, and whether ::epoll_ctl(ADD) succeeds.
pub record EventLoopCalls : Type 0 where
  pub listener : ListenerCalls
  pub epoll_create1 : Option ℕ
  pub eventfd : Option ℕ
  pub epoll_ctl_add : Option ℕ → Bool

-- The members that own a descriptor.
pub record Members : Type 0 where
  pub listener : FileDescriptor
  pub epoll_fd : FileDescriptor
  pub wakeup_fd : FileDescriptor

abbrev loop_failed_to : Bytes → Exception
loop_failed_to call = system_error (codes "EventLoop: " ++ (call ++ codes " failed"))

abbrev epoll_add_fails : Exception
epoll_add_fails = loop_failed_to (codes "epoll_ctl(ADD)")

unfoldable pub check_adds : EventLoopCalls → Members → Option Exception
check_adds calls members =
    if not (calls.epoll_ctl_add members.listener.fd)
    then some epoll_add_fails
    else if not (calls.epoll_ctl_add members.wakeup_fd.fd)
    then some epoll_add_fails
    else none

unfoldable pub check_members : EventLoopCalls → Members → Option ℕ → Option ℕ → Option Exception
unfolding check_adds
check_members calls members none wakeup_fd = some (loop_failed_to (codes "epoll_create1()"))
check_members calls members (some epoll_fd) none = some (loop_failed_to (codes "eventfd()"))
check_members calls members (some epoll_fd) (some wakeup_fd) = check_adds calls members

-- An exception destroys the members, the last first.
unfoldable pub after_members :
    Members → Constructed FileDescriptor → Option Exception → Constructed Members
after_members members listening failed = record {
  result = elim failed [ none ↦ built members | some e ↦ thrown e ];
  opened = to_list members.wakeup_fd.fd ++ (to_list members.epoll_fd.fd ++ listening.opened);
  closed = elim failed [
    | none ↦ listening.closed
    | some e ↦
        listening.closed
        ++ ((destroy members.wakeup_fd).1
            ++ ((destroy members.epoll_fd).1 ++ (destroy members.listener).1))
  ];
}

unfoldable pub after_built :
    EventLoopCalls
    → Constructed FileDescriptor
    → Option ℕ
    → Option ℕ
    → FileDescriptor
    → Constructed Members
unfolding after_members check_members
after_built calls listening epoll_fd wakeup_fd listener =
    let members : Members = record {
      listener = listener;
      epoll_fd = record { fd = epoll_fd };
      wakeup_fd = record { fd = wakeup_fd };
    } in
    after_members members listening (check_members calls members epoll_fd wakeup_fd)

unfoldable pub after_listener :
    EventLoopCalls → Constructed FileDescriptor → Result FileDescriptor → Constructed Members
unfolding after_built
after_listener calls listening (thrown e) = record {
  result = thrown e;
  opened = listening.opened;
  closed = listening.closed;
}
after_listener calls listening (built listener) =
    after_built calls listening calls.epoll_create1 calls.eventfd listener

unfoldable pub new_event_loop : EventLoopCalls → ListenerConfig → Constructed Members
unfolding after_listener
new_event_loop calls config =
    let listening = new_listener calls.listener config in
    after_listener calls listening listening.result

-- Where an exception leaves a constructor, what was opened is closed, the last first; where none
-- does, each member owns a descriptor, and nothing is closed.
abbrev pub IsTidy : Result Members → List ℕ → List ℕ → Type 0
IsTidy (thrown e) opened closed = closed ≡ opened
IsTidy (built members) opened closed =
    (closed ≡ [])
    × ((listener : ℕ) × (epoll_fd : ℕ) × (wakeup_fd : ℕ) × (members ≡ record {
      listener = record { fd = some listener };
      epoll_fd = record { fd = some epoll_fd };
      wakeup_fd = record { fd = some wakeup_fd };
    })
        × (opened ≡ wakeup_fd ∷ epoll_fd ∷ listener ∷ []))

abbrev IsTidyListener : Constructed FileDescriptor → Result FileDescriptor → Type 0
IsTidyListener c (thrown e) = c.closed ≡ c.opened
IsTidyListener c (built member) =
    (c.closed ≡ []) × ((fd : ℕ) × (member ≡ record { fd = some fd }) × (c.opened ≡ fd ∷ []))

new_listener-IsTidy :
    (calls : ListenerCalls) (config : ListenerConfig)
    → IsTidyListener (new_listener calls config) (new_listener calls config).result
unfolding new_listener after_socket after_check release reset destroy
new_listener-IsTidy calls config = elim (Option-cases calls.socket) [
  | inl e ↦ simp e refl
  | inr (fd, e) ↦ elim (Option-cases (check calls config)) [
    | inl f ↦ simp (e, f) (refl, (fd, refl, refl))
    | inr (x, f) ↦ simp (e, f) refl
  ]
]

-- The checks after the members' initialisation.
after_members-IsTidy :
    (listener epoll_fd wakeup_fd : ℕ) (listening : Constructed FileDescriptor)
    (failed : Option Exception)
    → listening.closed ≡ []
    → listening.opened ≡ listener ∷ []
    → let c =
        after_members
          (record {
            listener = record { fd = some listener };
            epoll_fd = record { fd = some epoll_fd };
            wakeup_fd = record { fd = some wakeup_fd };
          })
          listening
          failed in
      IsTidy c.result c.opened c.closed
unfolding after_members destroy reset
after_members-IsTidy listener epoll_fd wakeup_fd listening none empty one =
    (empty, (listener, epoll_fd, wakeup_fd, refl, rw one refl))
after_members-IsTidy listener epoll_fd wakeup_fd listening (some e) empty one = rw (empty, one) refl

after_built-IsTidy :
    (calls : EventLoopCalls) (listening : Constructed FileDescriptor)
    (epoll_fd wakeup_fd : Option ℕ) (listener : ℕ)
    → listening.closed ≡ []
    → listening.opened ≡ listener ∷ []
    → let c = after_built calls listening epoll_fd wakeup_fd (record { fd = some listener }) in
      IsTidy c.result c.opened c.closed
unfolding after_built check_members after_members destroy reset
after_built-IsTidy calls listening none none listener empty one = rw (empty, one) refl
after_built-IsTidy calls listening none (some wakeup_fd) listener empty one = rw (empty, one) refl
after_built-IsTidy calls listening (some epoll_fd) none listener empty one = rw (empty, one) refl
after_built-IsTidy calls listening (some epoll_fd) (some wakeup_fd) listener empty one =
    after_members-IsTidy listener epoll_fd wakeup_fd listening _ empty one

after_listener-IsTidy :
    (calls : EventLoopCalls) (listening : Constructed FileDescriptor) (r : Result FileDescriptor)
    → IsTidyListener listening r
    → let c = after_listener calls listening r in IsTidy c.result c.opened c.closed
unfolding after_listener
after_listener-IsTidy calls listening (thrown e) tidy = tidy
after_listener-IsTidy calls listening (built member) (empty, (listener, same, one)) =
    subst
      (λ m.
        let c = after_built calls listening calls.epoll_create1 calls.eventfd m in
        IsTidy c.result c.opened c.closed)
      (sym same)
      (after_built-IsTidy calls listening calls.epoll_create1 calls.eventfd listener empty one)

-- Whatever the system calls answer: where an exception leaves the constructor of the event loop, every
-- descriptor that was opened for it is closed once, the last first; where none does, its listener,
-- its epoll instance and its eventfd each own one of those opened, and none is closed.
pub new_event_loop-IsTidy :
    (calls : EventLoopCalls) (config : ListenerConfig)
    → IsTidy
        (new_event_loop calls config).result
        (new_event_loop calls config).opened
        (new_event_loop calls config).closed
unfolding new_event_loop
new_event_loop-IsTidy calls config =
    after_listener-IsTidy calls (new_listener calls.listener config) _
      (new_listener-IsTidy calls.listener config)
