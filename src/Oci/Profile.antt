-- ===== src/Oci/Profile.antt =====
-- pkg/oci/seccomp_profile.go: the built-in seccomp policy.
use lightpod.Base.{String, none, some, List, [], ◌∷◌}
use lightpod.Base.Text.{Bytes, texts}
use lightpod.Oci.Spec.{LinuxSeccomp, act_allow, act_errno}

abbrev allowed_names : List String
allowed_names =
    "execve" ∷ "execveat" ∷ "exit" ∷ "exit_group" ∷ "clone" ∷ "clone3" ∷ "fork" ∷ "vfork" ∷ "wait4"
    ∷ "waitid" ∷ "kill" ∷ "tkill" ∷ "tgkill" ∷ "getpid" ∷ "getppid" ∷ "gettid" ∷ "set_tid_address"
    ∷ "rt_sigreturn" ∷ "sigreturn" ∷ "sched_yield" ∷ "sched_getaffinity" ∷ "sched_setaffinity"
    ∷ "sched_getparam" ∷ "sched_setparam" ∷ "sched_getscheduler" ∷ "sched_setscheduler"
    ∷ "sched_get_priority_max" ∷ "sched_get_priority_min" ∷ "sched_rr_get_interval" ∷ "getuid"
    ∷ "geteuid" ∷ "getgid" ∷ "getegid" ∷ "getgroups" ∷ "setgroups" ∷ "setuid" ∷ "setgid"
    ∷ "setresuid" ∷ "setresgid" ∷ "getresuid" ∷ "getresgid" ∷ "setpgid" ∷ "getpgid" ∷ "getpgrp"
    ∷ "setsid" ∷ "getsid" ∷ "capget" ∷ "capset" ∷ "getpriority" ∷ "setpriority" ∷ "getrlimit"
    ∷ "setrlimit" ∷ "prlimit64" ∷ "getrusage" ∷ "read" ∷ "write" ∷ "readv" ∷ "writev" ∷ "pread64"
    ∷ "pwrite64" ∷ "preadv" ∷ "pwritev" ∷ "preadv2" ∷ "pwritev2" ∷ "open" ∷ "openat" ∷ "openat2"
    ∷ "close" ∷ "close_range" ∷ "creat" ∷ "lseek" ∷ "dup" ∷ "dup2" ∷ "dup3" ∷ "pipe" ∷ "pipe2"
    ∷ "fcntl" ∷ "flock" ∷ "fsync" ∷ "fdatasync" ∷ "sync" ∷ "syncfs" ∷ "truncate" ∷ "ftruncate"
    ∷ "fallocate" ∷ "sendfile" ∷ "copy_file_range" ∷ "splice" ∷ "tee" ∷ "vmsplice" ∷ "readahead"
    ∷ "fadvise64" ∷ "sync_file_range" ∷ "stat" ∷ "fstat" ∷ "lstat" ∷ "newfstatat" ∷ "statx"
    ∷ "statfs" ∷ "fstatfs" ∷ "access" ∷ "faccessat" ∷ "faccessat2" ∷ "readlink" ∷ "readlinkat"
    ∷ "getdents" ∷ "getdents64" ∷ "getcwd" ∷ "chdir" ∷ "fchdir" ∷ "mkdir" ∷ "mkdirat" ∷ "rmdir"
    ∷ "unlink" ∷ "unlinkat" ∷ "rename" ∷ "renameat" ∷ "renameat2" ∷ "link" ∷ "linkat" ∷ "symlink"
    ∷ "symlinkat" ∷ "chmod" ∷ "fchmod" ∷ "fchmodat" ∷ "chown" ∷ "fchown" ∷ "lchown" ∷ "fchownat"
    ∷ "umask" ∷ "utime" ∷ "utimes" ∷ "utimensat" ∷ "futimesat" ∷ "getxattr" ∷ "lgetxattr"
    ∷ "fgetxattr" ∷ "listxattr" ∷ "llistxattr" ∷ "flistxattr" ∷ "setxattr" ∷ "lsetxattr"
    ∷ "fsetxattr" ∷ "removexattr" ∷ "lremovexattr" ∷ "fremovexattr" ∷ "mmap" ∷ "mmap2" ∷ "munmap"
    ∷ "mremap" ∷ "mprotect" ∷ "madvise" ∷ "mincore" ∷ "brk" ∷ "mlock" ∷ "mlock2" ∷ "munlock"
    ∷ "mlockall" ∷ "munlockall" ∷ "memfd_create" ∷ "membarrier" ∷ "rt_sigaction" ∷ "rt_sigprocmask"
    ∷ "rt_sigpending" ∷ "rt_sigqueueinfo" ∷ "rt_sigsuspend" ∷ "rt_sigtimedwait"
    ∷ "rt_tgsigqueueinfo" ∷ "sigaltstack" ∷ "signalfd" ∷ "signalfd4" ∷ "pause" ∷ "restart_syscall"
    ∷ "nanosleep" ∷ "clock_nanosleep" ∷ "clock_gettime" ∷ "clock_getres" ∷ "gettimeofday" ∷ "times"
    ∷ "time" ∷ "timer_create" ∷ "timer_settime" ∷ "timer_gettime" ∷ "timer_getoverrun"
    ∷ "timer_delete" ∷ "timerfd_create" ∷ "timerfd_settime" ∷ "timerfd_gettime" ∷ "getitimer"
    ∷ "setitimer" ∷ "alarm" ∷ "poll" ∷ "ppoll" ∷ "select" ∷ "pselect6" ∷ "epoll_create"
    ∷ "epoll_create1" ∷ "epoll_ctl" ∷ "epoll_wait" ∷ "epoll_pwait" ∷ "epoll_pwait2" ∷ "eventfd"
    ∷ "eventfd2" ∷ "inotify_init" ∷ "inotify_init1" ∷ "inotify_add_watch" ∷ "inotify_rm_watch"
    ∷ "futex" ∷ "futex_waitv" ∷ "set_robust_list" ∷ "get_robust_list" ∷ "shmget" ∷ "shmat" ∷ "shmdt"
    ∷ "shmctl" ∷ "semget" ∷ "semop" ∷ "semtimedop" ∷ "semctl" ∷ "msgget" ∷ "msgsnd" ∷ "msgrcv"
    ∷ "msgctl" ∷ "mq_open" ∷ "mq_unlink" ∷ "mq_timedsend" ∷ "mq_timedreceive" ∷ "mq_notify"
    ∷ "mq_getsetattr" ∷ "socket" ∷ "socketpair" ∷ "bind" ∷ "listen" ∷ "accept" ∷ "accept4"
    ∷ "connect" ∷ "getsockname" ∷ "getpeername" ∷ "sendto" ∷ "recvfrom" ∷ "sendmsg" ∷ "recvmsg"
    ∷ "sendmmsg" ∷ "recvmmsg" ∷ "shutdown" ∷ "getsockopt" ∷ "setsockopt" ∷ "pidfd_open"
    ∷ "pidfd_send_signal" ∷ "pidfd_getfd" ∷ "ioctl" ∷ "uname" ∷ "sysinfo" ∷ "getrandom"
    ∷ "arch_prctl" ∷ "prctl" ∷ "personality" ∷ "gettid" ∷ "sched_getattr" ∷ "sched_setattr"
    ∷ "getcpu" ∷ "clock_adjtime" ∷ "rseq" ∷ "set_thread_area" ∷ "get_thread_area" ∷ "ugetrlimit"
    ∷ []

unfoldable pub default_allowed_syscalls : List Bytes
default_allowed_syscalls = texts allowed_names

abbrev pub default_seccomp_architectures : List Bytes
default_seccomp_architectures =
    texts ("SCMP_ARCH_X86_64" ∷ "SCMP_ARCH_AARCH64" ∷ "SCMP_ARCH_ARM" ∷ [])

unfoldable pub default_seccomp_profile : LinuxSeccomp
default_seccomp_profile = record {
  default_action = act_errno;
  default_errno_ret = some 1;
  architectures = default_seccomp_architectures;
  flags = [];
  syscalls =
      record { names = default_allowed_syscalls; action = act_allow; errno_ret = none; args = [] }
      ∷ [];
}
