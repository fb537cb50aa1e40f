-- ===== src/Util/IpHelper/Tests.antt =====
-- util/ip_helper.go at concrete addresses.
use landau.Common.{◌≡◌, refl, codes}
use landau.Util.IpHelper.{ipv6_bracket, ip_convert, split_addr_convert, addr_convert, with_port}

two_addresses :
    split_addr_convert (codes "::1:80,1.2.3.4:80") ipv6_bracket ≡ codes "[::1]:80,1.2.3.4:80"
unfolding split_addr_convert addr_convert ip_convert with_port
two_addresses = refl
