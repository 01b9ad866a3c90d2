-- ===== src/TagOnCreate/Network.antt =====
-- The ARNs that the creation of network parts, clusters and images names:
-- src/tag_on_create.py, from `extract_create_nat_gateway` to `extract_create_repository`.
use aws_tagging_utils.Base.{String, Option, none, some, List}
use aws_tagging_utils.Base.{string_eq, option_eq, if◌then◌else◌}
use aws_tagging_utils.Json.{Json, array, object, item, Fields, get_field, truthy}
use aws_tagging_utils.TagOnCreate.{
  Setting, or_else, as_object, dict_of, nested, request_of, response_of, one, one_arn, then_one,
}

module _ (setting : Setting) where
  unfoldable pub extract_create_nat_gateway : Fields → Fields → Option (List String)
  extract_create_nat_gateway detail envelope =
      then_one (nested (response_of detail) "natGateway" "natGatewayId")
        (one_arn setting "ec2" "natgateway/" detail envelope)

  unfoldable pub extract_create_subnet : Fields → Fields → Option (List String)
  extract_create_subnet detail envelope = some (
      one_arn setting "ec2" "subnet/" detail envelope
        (get_field (as_object (get_field (response_of detail) "subnet")) "subnetId"))

  unfoldable pub extract_create_security_group : Fields → Fields → Option (List String)
  extract_create_security_group detail envelope = some (
      one_arn setting "ec2" "security-group/" detail envelope
        (get_field (response_of detail) "groupId"))

  unfoldable pub extract_create_elasticsearch_domain : Fields → Fields → Option (List String)
  extract_create_elasticsearch_domain detail envelope =
      elim (dict_of (get_field (response_of detail) "domainStatus")) [
        | none ↦ none
        | some ds ↦ some (one setting (or_else (get_field ds "arn") (get_field ds "ARN")))
      ]

  -- The first load balancer: nothing for an empty list, `none` where `lbs[0].get` raises.
  first_balancer : Option Json → Option (Option Json)
  first_balancer (some (array (item (object lb) rest))) = some (get_field lb "loadBalancerArn")
  first_balancer (some (array (item other rest))) = none
  first_balancer _ = some none

  unfoldable pub extract_create_load_balancer : Fields → Fields → Option (List String)
  unfolding first_balancer
  extract_create_load_balancer detail envelope =
      let name = get_field (request_of detail) "loadBalancerName" in
      elim (first_balancer (get_field (response_of detail) "loadBalancers")) [
        | none ↦ none
        | some arn ↦
            if truthy arn
            then some (one setting arn)
            else some (one_arn setting "elasticloadbalancing" "loadbalancer/" detail envelope name)
      ]

  unfoldable pub extract_create_snapshot : Fields → Fields → Option (List String)
  extract_create_snapshot detail envelope = some (
      one_arn setting "ec2" "snapshot/" detail envelope
        (get_field (response_of detail) "snapshotId"))

  unfoldable pub extract_create_vpc : Fields → Fields → Option (List String)
  extract_create_vpc detail envelope =
      then_one (nested (response_of detail) "vpc" "vpcId")
        (one_arn setting "ec2" "vpc/" detail envelope)

  unfoldable pub extract_create_internet_gateway : Fields → Fields → Option (List String)
  extract_create_internet_gateway detail envelope =
      then_one (nested (response_of detail) "internetGateway" "internetGatewayId")
        (one_arn setting "ec2" "internet-gateway/" detail envelope)

  unfoldable pub extract_create_route_table : Fields → Fields → Option (List String)
  extract_create_route_table detail envelope =
      then_one (nested (response_of detail) "routeTable" "routeTableId")
        (one_arn setting "ec2" "route-table/" detail envelope)

  unfoldable pub extract_create_network_interface : Fields → Fields → Option (List String)
  extract_create_network_interface detail envelope =
      then_one (nested (response_of detail) "networkInterface" "networkInterfaceId")
        (one_arn setting "ec2" "network-interface/" detail envelope)

  unfoldable pub extract_create_cluster : Fields → Fields → Option (List String)
  extract_create_cluster detail envelope =
      elim (dict_of (get_field (response_of detail) "cluster")) [
        | none ↦ none
        | some c ↦
            let arn = or_else (get_field c "clusterArn") (get_field c "arn") in
            let id = get_field c "clusterIdentifier" in
            if truthy arn
            then some (one setting arn)
            else some (one_arn setting "redshift" "cluster:" detail envelope id)
      ]

  unfoldable pub extract_create_service : Fields → Fields → Option (List String)
  extract_create_service detail envelope =
      then_one (nested (response_of detail) "service" "serviceArn") (one setting)

  unfoldable pub extract_create_repository : Fields → Fields → Option (List String)
  extract_create_repository detail envelope =
      then_one (nested (response_of detail) "repository" "repositoryArn") (one setting)
