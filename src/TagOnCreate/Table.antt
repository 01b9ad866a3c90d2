-- ===== src/TagOnCreate/Table.antt =====
-- `EVENT_EXTRACTORS`: src/tag_on_create.py
use aws_tagging_utils.TagOnCreate.Computing.{
  extract_run_instances, extract_create_volume, extract_create_function, extract_create_bucket,
  extract_create_db_instance, extract_create_db_cluster, extract_create_table, extract_create_topic,
  extract_create_queue, extract_create_secret,
}
use aws_tagging_utils.TagOnCreate.Network.{
  extract_create_snapshot, extract_create_vpc, extract_create_subnet, extract_create_security_group,
  extract_create_internet_gateway, extract_create_nat_gateway, extract_create_route_table,
  extract_create_network_interface, extract_create_cluster, extract_create_service,
  extract_create_repository, extract_create_elasticsearch_domain, extract_create_load_balancer,
}
use aws_tagging_utils.TagOnCreate.Platform.{
  extract_create_elasticache, extract_create_stream, extract_create_key, extract_create_log_group,
  extract_create_api, extract_create_work_group, extract_create_glue_resource,
  extract_create_emr_cluster, extract_create_state_machine, extract_create_stack,
  extract_create_sagemaker_resource,
}
use aws_tagging_utils.Base.{String, Option, List, [], ◌∷◌}
use aws_tagging_utils.Base.Dict.{Dict}
use aws_tagging_utils.Json.{Fields}
use aws_tagging_utils.TagOnCreate.{Setting}

abbrev pub event_extractors : Setting → Dict String (Fields → Fields → Option (List String))
event_extractors setting =
    ("RunInstances", extract_run_instances setting)
    ∷ ("CreateVolume", extract_create_volume setting)
    ∷ ("CreateSnapshot", extract_create_snapshot setting)
    ∷ ("CreateVpc", extract_create_vpc setting)
    ∷ ("CreateSubnet", extract_create_subnet setting)
    ∷ ("CreateSecurityGroup", extract_create_security_group setting)
    ∷ ("CreateInternetGateway", extract_create_internet_gateway setting)
    ∷ ("CreateNatGateway", extract_create_nat_gateway setting)
    ∷ ("CreateRouteTable", extract_create_route_table setting)
    ∷ ("CreateNetworkInterface", extract_create_network_interface setting)
    ∷ ("CreateFunction", extract_create_function setting)
    ∷ ("CreateFunction20150331", extract_create_function setting)
    ∷ ("CreateCluster", extract_create_cluster setting)
    ∷ ("CreateService", extract_create_service setting)
    ∷ ("CreateRepository", extract_create_repository setting)
    ∷ ("CreateBucket", extract_create_bucket setting)
    ∷ ("CreateDBInstance", extract_create_db_instance setting)
    ∷ ("CreateDBCluster", extract_create_db_cluster setting)
    ∷ ("CreateTable", extract_create_table setting)
    ∷ ("CreateCacheCluster", extract_create_elasticache setting)
    ∷ ("CreateReplicationGroup", extract_create_elasticache setting)
    ∷ ("CreateElasticsearchDomain", extract_create_elasticsearch_domain setting)
    ∷ ("CreateDomain", extract_create_elasticsearch_domain setting)
    ∷ ("CreateTopic", extract_create_topic setting)
    ∷ ("CreateQueue", extract_create_queue setting)
    ∷ ("CreateStream", extract_create_stream setting)
    ∷ ("CreateSecret", extract_create_secret setting)
    ∷ ("CreateKey", extract_create_key setting)
    ∷ ("CreateLogGroup", extract_create_log_group setting)
    ∷ ("CreateRestApi", extract_create_api setting)
    ∷ ("CreateApi", extract_create_api setting)
    ∷ ("CreateLoadBalancer", extract_create_load_balancer setting)
    ∷ ("CreateWorkGroup", extract_create_work_group setting)
    ∷ ("CreateJob", extract_create_glue_resource setting)
    ∷ ("CreateCrawler", extract_create_glue_resource setting)
    ∷ ("CreateDatabase", extract_create_glue_resource setting)
    ∷ ("RunJobFlow", extract_create_emr_cluster setting)
    ∷ ("CreateStateMachine", extract_create_state_machine setting)
    ∷ ("CreateStack", extract_create_stack setting)
    ∷ ("CreateNotebookInstance", extract_create_sagemaker_resource setting)
    ∷ ("CreateModel", extract_create_sagemaker_resource setting)
    ∷ ("CreateTrainingJob", extract_create_sagemaker_resource setting)
    ∷ []
