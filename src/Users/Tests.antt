-- ===== src/Users/Tests.antt =====
-- A passwd file with root, a service and two users.
use mathlib.Core.List.Permᴰ.{refl as perm_refl}
use nokkud.Base.{length, All, Bytes, codes, bytes_beq, refl, some, [], ◌≤◌, ◌≡◌, ◌∷◌, ◌++◌}
use nokkud.Recording.Retention.{has_suffix}
use nokkud.Sshd.Account.{split}
use nokkud.Users.{
  atoi, cap_users, is_valid_ssh_user, max_reported_users, system_users, user_of, users_of,
}
use nokkud.Users.Reported.{IsLogin, system_users-IsLogin}

abbrev line : Bytes → Bytes → Bytes → Bytes
line name uid login = name ++ (codes ":x:" ++ (uid ++ (codes ":0::/:" ++ (login ++ (10 ∷ [])))))

abbrev passwd : Bytes
passwd =
    line (codes "root") (codes "0") (codes "/bin/bash")
    ++ (line (codes "daemon") (codes "1") (codes "/bin/sh")
        ++ (line (codes "git") (codes "1001") (codes "/sbin/nologin")
            ++ line (codes "ann") (codes "+1000") (codes "/bin/sh")))

reported : system_users (λ names. names) (some passwd) ≡ codes "root" ∷ codes "ann" ∷ []
unfolding system_users users_of user_of atoi is_valid_ssh_user has_suffix split codes bytes_beq
    cap_users
reported = refl

system_users-IsLogin_example :
    (length (system_users (λ names. names) (some passwd)) ≤ max_reported_users)
    × All (IsLogin (split 10 passwd)) (system_users (λ names. names) (some passwd))
system_users-IsLogin_example =
    system_users-IsLogin (λ names. names) passwd (λ names. perm_refl names)
